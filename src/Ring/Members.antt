-- ===== src/Ring/Members.antt =====
-- What the instances see of the ring (app/modules/proxy/ring_membership.py).
use mathlib.Core.List.{Permᴰ}
use codex_lb_mod.Base.{
  Bool, Bool-cases, List, [], ap, arith, false, if◌then◌else◌, inl, inr, map, refl, select, sym, ℕ,
  ◌∙◌, ◌∷◌, ◌≡◌,
}
use codex_lb_mod.Ring.{
  RingHost, RingMember, is_listed, list_active, ring_fingerprint, sort_id, sorted_ids,
}

-- The order of two insertions does not matter.
sort_id_comm : (a b : ℕ) (ids : List ℕ) → sort_id a (sort_id b ids) ≡ sort_id b (sort_id a ids)
sort_id_comm a b [] = ground arith
sort_id_comm a b (c ∷ ids) = ground (arith, sort_id_comm a b ids)

module _ (p : RingMember → Bool) where
  abbrev listed : List RingMember → List ℕ
  listed rows = sorted_ids (map (λ m. m.member_id) (select p rows))

  -- One row more in front.
  abbrev add_row : RingMember → List ℕ → List ℕ
  add_row m ids = if p m then sort_id m.member_id ids else ids

  listed-cons :
      (m : RingMember) (rows : List RingMember) → listed (m ∷ rows) ≡ add_row m (listed rows)
  listed-cons m rows = elim (Bool-cases (p m)) [
    | inl kept ↦ rw kept refl
    | inr dropped ↦ rw dropped refl
  ]

  add_row_comm :
      (m n : RingMember) (ids : List ℕ) → add_row m (add_row n ids) ≡ add_row n (add_row m ids)
  add_row_comm m n ids = elim (Bool-cases (p m)) [
    | inr without ↦ rw without refl
    | inl first ↦ elim (Bool-cases (p n)) [
      | inr other ↦ rw (first, other) refl
      | inl second ↦ rw (first, second) (sort_id_comm m.member_id n.member_id ids)
    ]
  ]

  listed-Perm : {rows rows' : List RingMember} → Permᴰ rows rows' → listed rows ≡ listed rows'
  listed-Perm Permᴰ.nil = refl
  listed-Perm (Permᴰ.cons {a} {b} {l₁} {l₂} e d) =
      listed-cons a l₁
      ∙ ap (add_row a) (listed-Perm d)
      ∙ ap (λ m. add_row m (listed l₂)) e
      ∙ sym (listed-cons b l₂)
  listed-Perm (Permᴰ.swap {a} {b} {a'} {b'} {l} e f) =
      listed-cons a (b ∷ l)
      ∙ ap (add_row a) (listed-cons b l)
      ∙ add_row_comm a b (listed l)
      ∙ ap (λ m. add_row m (add_row a (listed l))) f
      ∙ ap (λ m. add_row a' (add_row m (listed l))) e
      ∙ ap (add_row a') (sym (listed-cons b' l))
      ∙ sym (listed-cons a' (b' ∷ l))
  listed-Perm (Permᴰ.trans d f) = listed-Perm d ∙ listed-Perm f

-- Instances that see the same members, in whatever order the database gives the rows, compute
-- the same fingerprint, whatever the digest.
pub ring_fingerprint-Perm :
    (host : RingHost) (now threshold : ℕ) (rows rows' : List RingMember)
    → Permᴰ rows rows'
    → ring_fingerprint host now threshold rows ≡ ring_fingerprint host now threshold rows'
unfolding ring_fingerprint list_active
ring_fingerprint-Perm host now threshold rows rows' same =
    ap (λ ids. host.digest (sorted_ids ids)) (listed-Perm (is_listed now threshold false) same)

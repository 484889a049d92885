-- ===== src/Ring/Leaving.antt =====
-- How an instance leaves the ring that marks itself stale (app/modules/proxy/ring_membership.py).
use Prim.Native.String.{String}
use codex_lb_mod.Base.{
  ==_iff, All, Bool, Bool-cases, In, List, Option, [], ap, arith, if◌then◌else◌, inl, inr, ltb,
  refl, sym, true, ℕ, ◌+◌, ◌-◌, ◌==◌, ◌∙◌, ◌∷◌, ◌≡◌, ◌≢◌, ◌≤◌, ◌⊎◌,
}
use codex_lb_mod.Base.Member.{In-map, In-select}
use codex_lb_mod.Balancer.State.{seconds}
use codex_lb_mod.Ring.{
  RingHost, RingMember, heartbeat, is_listed, is_member, list_active, mark_stale, new_member,
  register, sort_id, sorted_ids, stale_age, unregister, upsert_member,
}

In-sort_id : (x id : ℕ) (ids : List ℕ) → In x (sort_id id ids) → (id ≡ x) ⊎ In x ids
In-sort_id x id [] (inl e) = inl e
In-sort_id x id [] (inr m) = absurd m.0
In-sort_id x id (other ∷ ids) m = elim (Bool-cases (ltb other id)) [
  | inr here ↦ rw here at m
  | inl later ↦ elim (rw later at m) [
    | inl e ↦ inr (inl e)
    | inr n ↦ elim (In-sort_id x id ids n) [ inl e ↦ inl e | inr k ↦ inr (inr k) ]
  ]
]

In-sorted : (x : ℕ) (ids : List ℕ) → In x (sorted_ids ids) → In x ids
In-sorted x [] m = m
In-sorted x (id ∷ ids) m = elim (In-sort_id x id (sorted_ids ids) m) [
  | inl e ↦ inl e
  | inr n ↦ inr (In-sorted x ids n)
]

abbrev aged : ℕ → ℕ → ℕ → ℕ → RingMember → RingMember
aged now threshold grace id m =
    if is_member id m then record m { last_heartbeat_at = now - stale_age threshold grace } else m

-- A row of the instance, if there is one, has its last heartbeat at a time.
abbrev IsAged : ℕ → ℕ → List RingMember → Type 0
IsAged id beat rows =
    (row : RingMember) → In row rows → row.member_id ≡ id → row.last_heartbeat_at ≡ beat

mark_stale-IsAged :
    (now threshold grace id : ℕ) (rows : List RingMember)
    → IsAged id (now - stale_age threshold grace) (mark_stale now threshold grace id rows)
unfolding mark_stale
mark_stale-IsAged now threshold grace id rows row m e =
    let (before, there, changed) = In-map (aged now threshold grace id) row rows m in
    ap (λ r. r.last_heartbeat_at) (sym changed)
    ∙ aged_beat before (ap (λ r. r.member_id) changed ∙ e)
  where
    aged_beat :
        (m : RingMember)
        → (aged now threshold grace id m).member_id ≡ id
        → (aged now threshold grace id m).last_heartbeat_at ≡ now - stale_age threshold grace
    aged_beat m e = elim (Bool-cases (is_member id m)) [
      | inl same ↦ rw same refl
      | inr other ↦ absurd (cc ((==_iff m.member_id id).1 (rw other at e), other))
    ]

-- Where a row after an upsert comes from: another's row, or one with the id of the new row.
upsert_member-In :
    (new : RingMember) (change : RingMember → RingMember) (row : RingMember)
    (rows : List RingMember)
    → ((m : RingMember) → (change m).member_id ≡ m.member_id)
    → In row (upsert_member new change rows)
    → In row rows ⊎ (row.member_id ≡ new.member_id)
upsert_member-In new change row [] law (inl e) = inr (ap (λ r. r.member_id) (sym e))
upsert_member-In new change row [] law (inr m) = absurd m.0
upsert_member-In new change row (x ∷ rows) law m =
    elim (Bool-cases (x.member_id == new.member_id)) [
      | inl here ↦ elim (rw here at m) [
        | inl e ↦
            inr (ap (λ r. r.member_id) (sym e) ∙ law x ∙ (==_iff x.member_id new.member_id).0 here)
        | inr n ↦ inl (inr n)
      ]
      | inr there ↦ elim (rw there at m) [
        | inl e ↦ inl (inl e)
        | inr n ↦ elim (upsert_member-In new change row rows law n) [
          | inl k ↦ inl (inr k)
          | inr same ↦ inr same
        ]
      ]
    ]

-- The operations on the table, at a time.
pub data RingOperation : Type 0 where
  registers beats : ℕ → ℕ → Option String → RingOperation
  leaves : ℕ → RingOperation
  ages : ℕ → ℕ → ℕ → ℕ → RingOperation

unfoldable pub ring_operate : RingHost → RingOperation → List RingMember → List RingMember
ring_operate host (registers now id url) = register host now id url
ring_operate host (beats now id url) = heartbeat host now id url
ring_operate host (leaves id) = unregister id
ring_operate host (ages now threshold grace id) = mark_stale now threshold grace id

unfoldable pub ring_operates : RingHost → List RingOperation → List RingMember → List RingMember
unfolding ring_operate
ring_operates host [] rows = rows
ring_operates host (op ∷ ops) rows = ring_operates host ops (ring_operate host op rows)

-- The operation is another instance's, or takes the instance off the table.
abbrev pub IsAway : ℕ → RingOperation → Type 0
IsAway id (registers now other url) = other ≢ id
IsAway id (beats now other url) = other ≢ id
IsAway id (leaves other) = Unit {0}
IsAway id (ages now threshold grace other) = other ≢ id

operate-IsAged :
    (host : RingHost) (op : RingOperation) (id beat : ℕ) (rows : List RingMember)
    → IsAway id op
    → IsAged id beat rows
    → IsAged id beat (ring_operate host op rows)
unfolding ring_operate register heartbeat unregister mark_stale
operate-IsAged host (registers now other url) id beat rows away aged_rows row m e =
    elim (upsert_member-In (new_member host now other url) _ row rows (λ r. refl) m) [
      | inl n ↦ aged_rows row n e
      | inr same ↦ absurd (away (sym same ∙ e))
    ]
operate-IsAged host (beats now other url) id beat rows away aged_rows row m e =
    elim (upsert_member-In (new_member host now other url) _ row rows (λ r. refl) m) [
      | inl n ↦ aged_rows row n e
      | inr same ↦ absurd (away (sym same ∙ e))
    ]
operate-IsAged host (leaves other) id beat rows away aged_rows row m e =
    aged_rows row (In-select _ row rows m).0 e
operate-IsAged host (ages now threshold grace other) id beat rows away aged_rows row m e =
    let (before, there, changed) = In-map (aged now threshold grace other) row rows m in
    elim (Bool-cases (is_member other before)) [
      | inl same ↦ absurd (
          away (
            sym ((==_iff before.member_id other).0 same)
            ∙ ap (λ r. r.member_id) (rw same at changed)
            ∙ e))
      | inr differ ↦
          let kept : before ≡ row = (rw differ at changed) in
          ap (λ r. r.last_heartbeat_at) (sym kept)
          ∙ aged_rows before there (ap (λ r. r.member_id) kept ∙ e)
    ]

operates-IsAged :
    (host : RingHost) (ops : List RingOperation) (id beat : ℕ) (rows : List RingMember)
    → All (IsAway id) ops
    → IsAged id beat rows
    → IsAged id beat (ring_operates host ops rows)
unfolding ring_operates
operates-IsAged host [] id beat rows away aged_rows = aged_rows
operates-IsAged host (op ∷ ops) id beat rows (first, others) aged_rows =
    operates-IsAged host ops id beat (ring_operate host op rows) others
      (operate-IsAged host op id beat rows first aged_rows)

-- An instance that marks itself stale leaves the ring when the grace is over, if it is no longer than
-- the threshold and the clock is past the threshold: after whatever the other instances do to the table, and whoever takes the instance
-- off it, a list that has the instance is read before the grace is over. The instance itself, in
-- between, neither registers nor sends a heartbeat nor marks itself stale again.
pub mark_stale_leaves :
    (host : RingHost) (ops : List RingOperation) (now later threshold grace id : ℕ)
    (require_endpoint : Bool) (rows : List RingMember)
    → grace ≤ threshold
    → seconds threshold ≤ now
    → All (IsAway id) ops
    → In id (
        list_active later threshold require_endpoint
          (ring_operates host ops (mark_stale now threshold grace id rows)))
    → later ≤ now + seconds grace
unfolding list_active
mark_stale_leaves host ops now later threshold grace id require_endpoint rows short past away m =
    let (row, n, same) = In-map (λ r. r.member_id) id _ (In-sorted id _ m) in
    let (k, ok) = In-select (is_listed later threshold require_endpoint) row _ n in
    let beat =
      operates-IsAged host ops id _ _ away (mark_stale-IsAged now threshold grace id rows) row k
        same in
    still_fresh row ok beat
  where
    still_fresh :
        (row : RingMember)
        → is_listed later threshold require_endpoint row ≡ true
        → row.last_heartbeat_at ≡ now - stale_age threshold grace
        → later ≤ now + seconds grace
    still_fresh row ok beat = ground arith

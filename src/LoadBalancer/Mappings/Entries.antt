-- ===== src/LoadBalancer/Mappings/Entries.antt =====
-- What a change of one mapping does to the lookups of all (app/modules/proxy/sticky_repository.py).
use codex_lb_mod.Base.{
  Bool-cases, List, Option, [], arith, false, inl, inr, none, not, refl, select, some, true, ℕ,
  ◌==◌, ◌∙◌, ◌∷◌, ◌≡◌,
}
use codex_lb_mod.LoadBalancer.Mappings.{
  StickySession, StickySessionKind, delete_entry, first_entry, get_account_id, get_entry, is_entry,
  is_old, new_entry, remap, same_kind, upsert_entry,
}

same_kind_refl : (k : StickySessionKind) → same_kind k k ≡ true
same_kind_refl k = ground arith

same_kind-eq : (a b : StickySessionKind) → same_kind a b ≡ true → a ≡ b
same_kind-eq a b h = ground arith

-- The mapping of a key: the account that it leads to, if any.
abbrev pub mapping : ℕ → StickySessionKind → List StickySession → Option ℕ
mapping key kind rows = elim (first_entry key kind rows) as (λ _. Option ℕ) [
  | none ↦ none
  | some row ↦ some row.mapped_account
]

new_entry-is_entry :
    (now key : ℕ) (kind : StickySessionKind) (account : ℕ)
    → is_entry key kind (new_entry now key kind account) ≡ true
new_entry-is_entry now key kind account = rw (same_kind_refl kind) (ground arith)

is_old-same :
    (later : ℕ) (max_age : Option ℕ) (r s : StickySession)
    → r.mapping_updated_at ≡ s.mapping_updated_at
    → is_old later max_age r ≡ is_old later max_age s
is_old-same later none r s e = refl
is_old-same later (some a) r s e = rw e refl

module _ (now key : ℕ) (kind : StickySessionKind) (account : ℕ) where
  -- The first entry for the key and kind is afterwards one of the given account, updated now.
  upsert-first_entry :
      (rows : List StickySession)
      → (row : StickySession) × (first_entry key kind (upsert_entry now key kind account rows)
          ≡ some row)
        × (row.mapped_account ≡ account)
        × (row.mapping_updated_at ≡ now)
  unfolding upsert_entry
  upsert-first_entry [] = (
    new_entry now key kind account,
    rw (new_entry-is_entry now key kind account) refl,
    refl,
    refl,
  )
  upsert-first_entry (row ∷ rows) = elim (Bool-cases (is_entry key kind row)) [
    | inl here ↦ (remap now account row, rw (here, here) refl, refl, refl)
    | inr there ↦ let (r, e, f, g) = upsert-first_entry rows in (r, rw (there, there) e, f, g)
  ]

  -- After an upsert the key has the account, for as long as a lookup allows.
  pub upsert-get_account_id :
      (rows : List StickySession) (later : ℕ) (max_age : Option ℕ)
      → (key == 0) ≡ false
      → is_old later max_age (new_entry now key kind account) ≡ false
      → get_account_id later key kind max_age (upsert_entry now key kind account rows)
        ≡ (upsert_entry now key kind account rows, some account)
  unfolding get_account_id get_entry
  upsert-get_account_id rows later max_age named young =
      let (r, e, f, g) = upsert-first_entry rows in
      rw
        (
          get_account_id,
          get_entry,
          named,
          e,
          is_old-same later max_age r (new_entry now key kind account) g ∙ young,
          f,
        )
        refl

  delete-first_entry :
      (rows : List StickySession)
      → first_entry key kind (select (λ r. not (is_entry key kind r)) rows) ≡ none
  delete-first_entry [] = refl
  delete-first_entry (row ∷ rows) = elim (Bool-cases (is_entry key kind row)) [
    | inl here ↦ rw here (delete-first_entry rows)
    | inr there ↦ rw (there, there) (delete-first_entry rows)
  ]

  pub delete_entry-first :
      (rows : List StickySession)
      → (key == 0) ≡ false
      → first_entry key kind (delete_entry key kind rows).0 ≡ none
  unfolding delete_entry
  delete_entry-first rows named = rw named (delete-first_entry rows)

  pub mapping-upsert :
      (rows : List StickySession)
      → mapping key kind (upsert_entry now key kind account rows) ≡ some account
  mapping-upsert rows = let (r, e, f, g) = upsert-first_entry rows in rw (mapping, e, f) refl

  pub mapping-delete :
      (rows : List StickySession)
      → (key == 0) ≡ false
      → mapping key kind (delete_entry key kind rows).0 ≡ none
  mapping-delete rows named = rw (mapping, delete_entry-first rows named) refl

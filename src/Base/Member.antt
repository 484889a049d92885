-- ===== src/Base/Member.antt =====
-- Membership under filtering, mapping and indexing.
use codex_lb_mod.Base.{
  Bool, Bool-cases, In, List, [], ap, arith, false, get_elem?, inl, inr, length, map, refl, select,
  some, some_inj, subst, suc, sym, true, zero, ℕ, ◌++◌, ◌+◌, ◌<◌, ◌∷◌, ◌≡◌,
}

module _ {ℓ} {A : Type ℓ} where
  select-cons_true :
      (p : A → Bool) (x : A) (xs : List A) → p x ≡ true → select p (x ∷ xs) ≡ x ∷ select p xs
  select-cons_true p x xs h = rw h

  select-cons_false :
      (p : A → Bool) (x : A) (xs : List A) → p x ≡ false → select p (x ∷ xs) ≡ select p xs
  select-cons_false p x xs h = rw h

  In-weaken :
      (p : A → Bool) (a x : A) (xs : List A) → In a xs × (p a ≡ true) → In a (x ∷ xs) × (p a ≡ true)
  In-weaken p a x xs (m, h) = (inr m, h)

  In-select_head :
      (p : A → Bool) (a x : A) (xs ys : List A)
      → p x ≡ true
      → (In a ys → In a xs × (p a ≡ true))
      → In a (x ∷ ys)
      → In a (x ∷ xs) × (p a ≡ true)
  In-select_head p a x xs ys h rest (inl e) = (inl e, subst (λ z. p z ≡ true) e h)
  In-select_head p a x xs ys h rest (inr m) = In-weaken p a x xs (rest m)

  -- What a filter keeps was there, and passes the test.
  pub In-select : (p : A → Bool) (a : A) (xs : List A) → In a (select p xs) → In a xs × (p a ≡ true)
  In-select p a [] m = absurd m.0
  In-select p a (x ∷ xs) m = elim (Bool-cases (p x)) [
    | inl h ↦
        In-select_head p a x xs (select p xs) h (In-select p a xs)
          (subst (In a) (select-cons_true p x xs h) m)
    | inr h ↦ In-weaken p a x xs (In-select p a xs (subst (In a) (select-cons_false p x xs h) m))
  ]

  pub select-In : (p : A → Bool) (a : A) (xs : List A) → In a xs → p a ≡ true → In a (select p xs)
  select-In p a [] m h = m
  select-In p a (x ∷ xs) (inl e) h =
      subst (In a) (sym (select-cons_true p x xs (subst (λ z. p z ≡ true) (sym e) h))) (inl e)
  select-In p a (x ∷ xs) (inr m) h = elim (Bool-cases (p x)) [
    | inl k ↦ subst (In a) (sym (select-cons_true p x xs k)) (inr (select-In p a xs m h))
    | inr k ↦ subst (In a) (sym (select-cons_false p x xs k)) (select-In p a xs m h)
  ]

  pub In-get_elem? : (xs : List A) (i : ℕ) {a : A} → get_elem? xs i ≡ some a → In a xs
  In-get_elem? [] i h = cc
  In-get_elem? (x ∷ xs) zero h = inl (some_inj h)
  In-get_elem? (x ∷ xs) (suc i) h = inr (In-get_elem? xs i h)

  pub get_elem?-some : (xs : List A) (i : ℕ) → i < length xs → (a : A) × (get_elem? xs i ≡ some a)
  get_elem?-some [] i h = absurd (omega arith)
  get_elem?-some (x ∷ xs) zero h = (x, refl)
  get_elem?-some (x ∷ xs) (suc i) h = get_elem?-some xs i (omega arith)

  pub length-append : (xs ys : List A) → length (xs ++ ys) ≡ length xs + length ys
  length-append [] ys = omega arith
  length-append (x ∷ xs) ys = omega (arith, length-append xs ys)

  pub length-map {κ} : {B : Type κ} (f : A → B) (xs : List A) → length (map f xs) ≡ length xs
  length-map f [] = refl
  length-map f (x ∷ xs) = ap suc (length-map f xs)

  pub In-nonempty : (a : A) (xs : List A) → In a xs → (y : A) × (ys : List A) × (xs ≡ y ∷ ys)
  In-nonempty a [] m = absurd m.0
  In-nonempty a (x ∷ xs) m = (x, xs, refl)

module _ {ℓ κ} {A : Type ℓ} {B : Type κ} (f : A → B) where
  pub In-map : (b : B) (xs : List A) → In b (map f xs) → (a : A) × In a xs × (f a ≡ b)
  In-map b [] m = absurd m.0
  In-map b (x ∷ xs) (inl e) = (x, inl refl, e)
  In-map b (x ∷ xs) (inr m) = let (a, n, e) = In-map b xs m in (a, inr n, e)

  pub map-In : (a : A) (xs : List A) → In a xs → In (f a) (map f xs)
  map-In a [] m = absurd m.0
  map-In a (x ∷ xs) (inl e) = inl (ap f e)
  map-In a (x ∷ xs) (inr m) = inr (map-In a xs m)

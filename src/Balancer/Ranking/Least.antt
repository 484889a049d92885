-- ===== src/Balancer/Ranking/Least.antt =====
-- The least of a list under a strict weak order: it is there, it is in the list, nothing is below.
use codex_lb_mod.Base.{
  Bool, Bool-cases, In, List, [], arith, false, inl, inr, refl, some, some_inj, subst, sym, true, ℕ,
  ◌∷◌, ◌≡◌,
}
use codex_lb_mod.Balancer.Ranking.{
  Host, by_key, key_lt, least, least_from, probe_lt, usage_sort_key,
}

pub record IsWeakOrder {ℓ} {A : Type ℓ} (lt : A → A → Bool) : Type ℓ where
  asym : (a b : A) → lt a b ≡ true → lt b a ≡ false
  neg_trans : (a b c : A) → lt a b ≡ false → lt b c ≡ false → lt a c ≡ false

key_lt-asym : (a b : List ℕ) → key_lt a b ≡ true → key_lt b a ≡ false
unfolding key_lt
key_lt-asym [] [] h = refl
key_lt-asym [] (y ∷ ys) h = refl
key_lt-asym (x ∷ xs) [] h = cc
key_lt-asym (x ∷ xs) (y ∷ ys) h = ground (arith, key_lt-asym xs ys)

key_lt-neg_trans : (a b c : List ℕ) → key_lt a b ≡ false → key_lt b c ≡ false → key_lt a c ≡ false
unfolding key_lt
key_lt-neg_trans [] [] c h k = k
key_lt-neg_trans [] (y ∷ ys) c h k = cc
key_lt-neg_trans (x ∷ xs) b [] h k = refl
key_lt-neg_trans (x ∷ xs) [] (z ∷ zs) h k = cc
key_lt-neg_trans (x ∷ xs) (y ∷ ys) (z ∷ zs) h k = ground (arith, key_lt-neg_trans xs ys zs)

pub by_key-IsWeakOrder {ℓ} : {A : Type ℓ} (key : A → List ℕ) → IsWeakOrder (by_key key)
by_key-IsWeakOrder key = record {
  asym = λ a b. key_lt-asym (key a) (key b);
  neg_trans = λ a b c. key_lt-neg_trans (key a) (key b) (key c);
}

pub probe_lt-IsWeakOrder : (host : Host) → IsWeakOrder (probe_lt host)
unfolding probe_lt
probe_lt-IsWeakOrder host = record {
  asym = λ a b h. ground (arith, key_lt-asym (usage_sort_key a) (usage_sort_key b));
  neg_trans = λ a b c h k.
      ground (arith, key_lt-neg_trans (usage_sort_key a) (usage_sort_key b) (usage_sort_key c));
}

module _ {ℓ} {A : Type ℓ} (lt : A → A → Bool) where
  shift-In : {r best : A} (x : A) (xs : List A) → In r (best ∷ xs) → In r (best ∷ x ∷ xs)
  shift-In x xs (inl e) = inl e
  shift-In x xs (inr m) = inr (inr m)

  least_from-lower :
      (x best : A) (xs : List A)
      → lt x best ≡ true
      → least_from lt best (x ∷ xs) ≡ least_from lt x xs
  unfolding least_from
  least_from-lower x best xs h = rw h

  least_from-same :
      (x best : A) (xs : List A)
      → lt x best ≡ false
      → least_from lt best (x ∷ xs) ≡ least_from lt best xs
  unfolding least_from
  least_from-same x best xs h = rw h

  least_from-nil : (best : A) → least_from lt best [] ≡ best
  unfolding least_from
  least_from-nil best = refl

  least_from-In : (best : A) (xs : List A) → In (least_from lt best xs) (best ∷ xs)
  least_from-In best [] = inl (sym (least_from-nil best))
  least_from-In best (x ∷ xs) = elim (Bool-cases (lt x best)) [
    | inl below ↦
        subst (λ r. In r (best ∷ x ∷ xs)) (sym (least_from-lower x best xs below))
          (inr (least_from-In x xs))
    | inr above ↦
        subst (λ r. In r (best ∷ x ∷ xs)) (sym (least_from-same x best xs above))
          (shift-In x xs (least_from-In best xs))
  ]

  pub least-In : (xs : List A) {a : A} → least lt xs ≡ some a → In a xs
  unfolding least
  least-In [] h = cc
  least-In (x ∷ xs) {a} h = subst (λ o. In o (x ∷ xs)) (some_inj h) (least_from-In x xs)

  pub least-some : (x : A) (xs : List A) → (a : A) × (least lt (x ∷ xs) ≡ some a)
  unfolding least
  least-some x xs = (least_from lt x xs, refl)

module _ {ℓ} {A : Type ℓ} (lt : A → A → Bool) (order : IsWeakOrder lt) where
  irreflexive : (a : A) → lt a a ≡ false
  irreflexive a = elim (Bool-cases (lt a a)) [ inl h ↦ order.asym a a h | inr h ↦ h ]

  least_from-stays :
      (y best : A) (xs : List A) → lt y best ≡ false → lt y (least_from lt best xs) ≡ false
  unfolding least_from
  least_from-stays y best [] h = h
  least_from-stays y best (x ∷ xs) h = elim (Bool-cases (lt x best)) [
    | inl below ↦
        rw below (least_from-stays y x xs (order.neg_trans y best x h (order.asym x best below)))
    | inr above ↦ rw above (least_from-stays y best xs h)
  ]

  least_from-below :
      (y best : A) (xs : List A) → In y (best ∷ xs) → lt y (least_from lt best xs) ≡ false
  unfolding least_from
  least_from-below y best xs (inl e) =
      least_from-stays y best xs (subst (λ z. lt z best ≡ false) e (irreflexive best))
  least_from-below y best [] (inr m) = absurd m.0
  least_from-below y best (x ∷ xs) (inr (inl e)) = elim (Bool-cases (lt x best)) [
    | inl below ↦ rw below (least_from-stays y x xs (subst (λ z. lt z x ≡ false) e (irreflexive x)))
    | inr above ↦ rw above (least_from-stays y best xs (subst (λ z. lt z best ≡ false) e above))
  ]
  least_from-below y best (x ∷ xs) (inr (inr m)) = elim (Bool-cases (lt x best)) [
    | inl below ↦ rw below (least_from-below y x xs (inr m))
    | inr above ↦ rw above (least_from-below y best xs (inr m))
  ]

  pub least-below : (xs : List A) {a : A} (y : A) → least lt xs ≡ some a → In y xs → lt y a ≡ false
  unfolding least
  least-below [] y h m = absurd m.0
  least-below (x ∷ xs) y h m = subst (λ o. lt y o ≡ false) (some_inj h) (least_from-below y x xs m)

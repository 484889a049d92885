-- ===== src/Bridge/Moves.antt =====
-- How the owner and the epoch of a row may change
-- (app/modules/proxy/durable_bridge_repository.py).
use codex_lb_mod.Base.{
  Bool-cases, Option, arith, if◌then◌else◌, inl, inr, is_none, none, refl, some, true, ℕ, ◌*◌, ◌+◌,
  ◌<◌, ◌≡◌, ◌⊎◌,
}
use codex_lb_mod.Bridge.{Claim, Session, is_owner, same_option, take_over}
use codex_lb_mod.Bridge.Writes.{
  Change, changed, drain_row, drains, release_row, releases, renew_row, renews, write_row,
}

-- The order in which ownership moves: a released row stands between two epochs.
abbrev pub rank : Session → ℕ
rank s = 2 * s.owner_epoch + (if is_none s.owner_instance_id then 1 else 0)

-- A row before and after: the same owner and epoch, or later in the order.
abbrev pub Moves : Session → Session → Type 0
Moves s t =
    (s.owner_instance_id ≡ t.owner_instance_id) × (s.owner_epoch ≡ t.owner_epoch)
    ⊎ (rank s < rank t)

pub Moves-refl : (s : Session) → Moves s s
Moves-refl s = inl (refl, refl)

pub Moves-trans : (s t u : Session) → Moves s t → Moves t u → Moves s u
Moves-trans s t u h k = ground arith

same_option-eq : (a b : Option ℕ) → same_option a b ≡ true → a ≡ b
same_option-eq a b h = ground arith

pub take_over-Moves : (now : ℕ) (c : Claim) (s : Session) → Moves s (take_over now c s)
unfolding take_over
take_over-Moves now c s = elim (Bool-cases (is_owner s c.instance_id)) [
  | inl own ↦ inl (same_option-eq s.owner_instance_id (some c.instance_id) own, rw own refl)
  | inr other ↦ inr (rw (take_over, other) (ground arith))
]

changed-owner :
    (c : Change) (s : Session)
    → ((changed c s).owner_instance_id ≡ s.owner_instance_id)
      ⊎ ((changed c s).owner_instance_id ≡ none)
unfolding changed renew_row release_row drain_row
changed-owner (renews now r) s = inl refl
changed-owner (releases now draining) s = inr refl
changed-owner (drains now) s = inl refl

changed-epoch : (c : Change) (s : Session) → (changed c s).owner_epoch ≡ s.owner_epoch
unfolding changed renew_row release_row drain_row
changed-epoch (renews now r) s = refl
changed-epoch (releases now draining) s = refl
changed-epoch (drains now) s = refl

same_option_refl : (o : Option ℕ) → same_option o o ≡ true
same_option_refl o = ground arith

-- However old the row is that it was made from, a write leaves the epoch, and the owner or none.
pub write_row-Moves : (c : Change) (old s : Session) → Moves s (write_row old (changed c old) s)
unfolding write_row
write_row-Moves c old s = elim (changed-owner c old) [
  | inl same ↦ inl (
    rw same (rw (same_option_refl old.owner_instance_id) refl),
    rw (changed-epoch c old) (ground arith),
  )
  | inr none_left ↦ rw (none_left, changed-epoch c old) (ground arith)
]

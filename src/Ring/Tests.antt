-- ===== src/Ring/Tests.antt =====
-- The ring with two instances.
use mathlib.Core.List.{Permᴰ}
use codex_lb_mod.Base.{
  List, In, [], arith, false, inl, length, none, refl, some, ◌+◌, ◌∷◌, ◌≡◌, ◌≤◌,
}
use codex_lb_mod.Ring.{
  unregister, RingHost, RingMember, endpoint_from_metadata, heartbeat, list_active, mark_stale,
  new_member, resolve_endpoint, ring_fingerprint,
}
use codex_lb_mod.Ring.Members.{ring_fingerprint-Perm}
use codex_lb_mod.Ring.Leaving.{
  RingOperation, ages, beats, leaves, mark_stale_leaves, ring_operate, ring_operates,
}

abbrev ring_host : RingHost
ring_host = record {
  dumps_endpoint = λ s. s;
  loads_endpoint = λ s. some s;
  strip_endpoint = λ s. s;
  digest = length;
}

abbrev one_member : RingMember
one_member = new_member ring_host 100000 1 none

abbrev other_member : RingMember
other_member = new_member ring_host 101000 2 (some "http://two")

ring_fingerprint-Perm_example :
    ring_fingerprint ring_host 110000 30 (one_member ∷ other_member ∷ [])
    ≡ ring_fingerprint ring_host 110000 30 (other_member ∷ one_member ∷ [])
ring_fingerprint-Perm_example =
    ring_fingerprint-Perm ring_host 110000 30 (one_member ∷ other_member ∷ [])
      (other_member ∷ one_member ∷ []) (Permᴰ.swap refl refl)

-- What the other instance does meanwhile.
abbrev meanwhile : List RingOperation
meanwhile = beats 112000 2 none ∷ ages 113000 30 15 2 ∷ leaves 3 ∷ []

still_listed : In 1 (
    list_active 115000 30 false (
      ring_operates ring_host meanwhile
        (mark_stale 110000 30 15 1 (one_member ∷ other_member ∷ []))))
unfolding list_active mark_stale ring_operates ring_operate heartbeat unregister
still_listed = inl refl

mark_stale_leaves_example : 115000 ≤ 110000 + 15000
mark_stale_leaves_example =
    mark_stale_leaves ring_host meanwhile 110000 115000 30 15 1 false
      (one_member ∷ other_member ∷ []) (omega arith) (omega arith)
      ((λ e. omega (arith, e)), ((λ e. omega (arith, e)), (tt, tt))) still_listed

lists_both : list_active 110000 30 false (other_member ∷ one_member ∷ []) ≡ 1 ∷ 2 ∷ []
unfolding list_active
lists_both = refl

finds_endpoint :
    resolve_endpoint ring_host 110000 30 2 (one_member ∷ other_member ∷ []) ≡ some "http://two"
unfolding resolve_endpoint endpoint_from_metadata
finds_endpoint = refl

comes_back :
    list_active 140000 30 false (heartbeat ring_host 135000 1 none (one_member ∷ other_member ∷ []))
    ≡ 1 ∷ []
unfolding list_active heartbeat
comes_back = refl

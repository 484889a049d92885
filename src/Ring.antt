-- ===== src/Ring.antt =====
-- app/modules/proxy/ring_membership.py: the instances that share the bridge, as rows with their
-- last heartbeat. An instance has at most one row. The three statements that depend on the dialect are those of
-- PostgreSQL and SQLite.
pub mod Members
pub mod Leaving
mod Tests
use Prim.Native.String.{String}
use text.Mathlib.Text.{◌==◌ as str_eq}
use codex_lb_mod.Base.{
  Bool, List, Option, [], false, if◌then◌else◌, is_some, leb, ltb, map, none, not, select, some, ℕ,
  ◌&&◌, ◌+◌, ◌-◌, ◌==◌, ◌||◌, ◌∷◌,
}
use codex_lb_mod.Balancer.State.{seconds}

pub record RingMember : Type 0 where
  pub member_id : ℕ
  pub registered_at : ℕ
  pub last_heartbeat_at : ℕ
  pub endpoint_json : Option String

-- What the code takes from Python: `json.dumps` of an object with the endpoint, the string at that
-- field of the object that `json.loads` reads if there is one, `str.strip` with `str.rstrip("/")`,
-- and the SHA-256 digest of the ids joined by commas.
pub record RingHost : Type 0 where
  pub dumps_endpoint : String → String
  pub loads_endpoint : String → Option String
  pub strip_endpoint : String → String
  pub digest : List ℕ → ℕ

abbrev pub is_member : ℕ → RingMember → Bool
is_member id m = m.member_id == id

-- INSERT … ON CONFLICT (instance_id) DO UPDATE
abbrev pub upsert_member :
    RingMember → (RingMember → RingMember) → List RingMember → List RingMember
upsert_member new change [] = new ∷ []
upsert_member new change (m ∷ ms) =
    let rest = upsert_member new change ms in
    if m.member_id == new.member_id then change m ∷ ms else m ∷ rest

abbrev pub metadata_json : RingHost → Option String → Option String
metadata_json host none = none
metadata_json host (some url) = some (host.dumps_endpoint url)

abbrev pub new_member : RingHost → ℕ → ℕ → Option String → RingMember
new_member host now id url = record {
  member_id = id;
  registered_at = now;
  last_heartbeat_at = now;
  endpoint_json = metadata_json host url;
}

unfoldable pub register : RingHost → ℕ → ℕ → Option String → List RingMember → List RingMember
register host now id url = upsert_member (new_member host now id url) (λ m. record m {
  last_heartbeat_at = now;
  registered_at = now;
  endpoint_json = metadata_json host url;
})

unfoldable pub heartbeat : RingHost → ℕ → ℕ → Option String → List RingMember → List RingMember
heartbeat host now id url =
    upsert_member (new_member host now id url)
      (λ m. record m { last_heartbeat_at = now; endpoint_json = metadata_json host url })

unfoldable pub unregister : ℕ → List RingMember → List RingMember
unregister id = select (λ m. not (is_member id m))

-- `max(stale_threshold_seconds - max(grace_seconds, 0), 0)`, for numbers that are not negative.
abbrev pub stale_age : ℕ → ℕ → ℕ
stale_age threshold grace = seconds (threshold - grace)

-- `now` is after the origin by more than the age.
unfoldable pub mark_stale : ℕ → ℕ → ℕ → ℕ → List RingMember → List RingMember
mark_stale now threshold grace id = map (λ m.
    if is_member id m then record m { last_heartbeat_at = now - stale_age threshold grace } else m)

-- `last_heartbeat_at >= cutoff`
abbrev pub is_fresh : ℕ → ℕ → RingMember → Bool
is_fresh now threshold m = leb now (m.last_heartbeat_at + seconds threshold)

abbrev pub sort_id : ℕ → List ℕ → List ℕ
sort_id id [] = id ∷ []
sort_id id (other ∷ ids) =
    let rest = sort_id id ids in if ltb other id then other ∷ rest else id ∷ other ∷ ids

-- ORDER BY instance_id
abbrev pub sorted_ids : List ℕ → List ℕ
sorted_ids [] = []
sorted_ids (id ∷ ids) = sort_id id (sorted_ids ids)

abbrev pub is_listed : ℕ → ℕ → Bool → RingMember → Bool
is_listed now threshold require_endpoint m =
    is_fresh now threshold m && (not require_endpoint || is_some m.endpoint_json)

unfoldable pub list_active : ℕ → ℕ → Bool → List RingMember → List ℕ
list_active now threshold require_endpoint rows =
    sorted_ids (map (λ m. m.member_id) (select (is_listed now threshold require_endpoint) rows))

abbrev first_fresh : ℕ → ℕ → ℕ → List RingMember → Option RingMember
first_fresh now threshold id [] = none
first_fresh now threshold id (m ∷ ms) =
    let rest = first_fresh now threshold id ms in
    if is_member id m && is_fresh now threshold m then some m else rest

abbrev nonempty : String → Option String
nonempty text = if str_eq text "" then none else some text

unfoldable pub endpoint_from_metadata : RingHost → Option String → Option String
endpoint_from_metadata host none = none
endpoint_from_metadata host (some json) = elim (host.loads_endpoint json) [
  | none ↦ none
  | some url ↦ nonempty (host.strip_endpoint url)
]

unfoldable pub resolve_endpoint : RingHost → ℕ → ℕ → ℕ → List RingMember → Option String
unfolding endpoint_from_metadata
resolve_endpoint host now threshold id rows = elim (first_fresh now threshold id rows) [
  | none ↦ none
  | some m ↦ endpoint_from_metadata host m.endpoint_json
]

-- The source sorts the sorted list again.
unfoldable pub ring_fingerprint : RingHost → ℕ → ℕ → List RingMember → ℕ
unfolding list_active
ring_fingerprint host now threshold rows =
    host.digest (sorted_ids (list_active now threshold false rows))

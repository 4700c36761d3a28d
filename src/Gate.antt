-- ===== src/Gate.antt =====
-- backend/app/core/provenance.py, `build_model_registry_snapshot`, and backend/app/core/game_runner.py,
-- the gate that a run passes before it is minted, and create_run. The texts of notes and messages and the
-- options of a local model are left out.
use codenames_llm_bias.Shared.{
  ℕ, suc, Bool, true, false, not, ◌&&◌, ◌||◌, Option, none, some, List, [], ◌∷◌, ◌++◌,
  if◌then◌else◌, ◌==◌, nat_eq, text_eq, Text, codes, lower, strip, starts_with, length, get_item,
  text_drop,
}
use codenames_llm_bias.Schedule.{SeatSpec}
pub mod Vetted
pub mod Mint

-- `provider_routing`: the first provider of the order, and the first quantization.
pub record Routing : Type 0 where
  pub first_provider : Text
  pub quantization : Option Text

pub data IdentityKind : Type 0 where
  requested_model_string requested_model_and_route ollama_digest ollama_digest_unavailable :
      IdentityKind

pub record ServedEntry : Type 0 where
  pub provider : Text
  pub model_name : Text
  pub identity_kind : IdentityKind
  pub identity : Option Text
  pub routing : Option Routing

abbrev pub is_openrouter : Text → Bool
is_openrouter provider = provider == codes "openrouter"

unfoldable pub routed_identity : Text → Routing → Text
routed_identity model_name r =
    let identity = model_name ++ (b'@' ∷ r.first_provider) in
    elim r.quantization [ none ↦ identity | some q ↦ identity ++ (b'/' ∷ q) ]

-- What the configuration expects, and what is served now: the version and the digests of the Ollama daemon
-- (a resolver that raises gives none), and the routing of the API models.
pub record Serving : Type 0 where
  pub expected_version : Text
  pub expected_digest : Text → Option Text
  pub server_version : Option Text
  pub digest_of : Text → Option Text
  pub provider_routing : Text → Option Routing

-- The errors of the gate, with the index of the seat.
pub data GateError : Type 0 where
  ollama_version : GateError
  no_expected_digest digest_unavailable digest_mismatch no_routing : ℕ → GateError

pub data Gated (A : Type 0) : Type 0 where
  passed : A → Gated A
  refused : GateError → Gated A

unfoldable pub normalize_digest : Text → Text
normalize_digest digest =
    let d = lower (strip digest) in
    if starts_with (codes "sha256:") d || starts_with (codes "sha256-") d then text_drop 7 d else d

module _ (s : Serving) where
  -- One seat's entry: an empty digest is none.
  unfoldable pub registry_entry : SeatSpec → ServedEntry
  registry_entry spec =
      let api : ServedEntry = elim (s.provider_routing spec.model_name) [
        | none ↦ record {
          provider = spec.provider;
          model_name = spec.model_name;
          identity_kind = requested_model_string;
          identity = some spec.model_name;
          routing = none;
        }
        | some r ↦ record {
          provider = spec.provider;
          model_name = spec.model_name;
          identity_kind = requested_model_and_route;
          identity = some (routed_identity spec.model_name r);
          routing = some r;
        }
      ] in
      let unavailable : ServedEntry = record {
        provider = spec.provider;
        model_name = spec.model_name;
        identity_kind = ollama_digest_unavailable;
        identity = none;
        routing = none;
      } in
      let local : ServedEntry = elim (s.digest_of spec.model_name) [
        | none ↦ unavailable
        | some digest ↦ if length digest == 0 then unavailable else record {
          provider = spec.provider;
          model_name = spec.model_name;
          identity_kind = ollama_digest;
          identity = some digest;
          routing = none;
        }
      ] in
      if is_openrouter spec.provider then api else local

  -- The snapshot, keyed by the index of the seat: the entries in order.
  unfoldable pub model_registry_snapshot : List SeatSpec → List ServedEntry
  model_registry_snapshot [] = []
  model_registry_snapshot (spec ∷ specs) = registry_entry spec ∷ model_registry_snapshot specs

  abbrev pub any_local : List SeatSpec → Bool
  any_local [] = false
  any_local (spec ∷ specs) = spec.provider == codes "ollama" || any_local specs

  unfoldable pub enforce_ollama_version : Bool → List SeatSpec → Option GateError
  enforce_ollama_version enforce specs =
      let is_expected : Bool = elim s.server_version [
        | none ↦ false
        | some v ↦ v == s.expected_version
      ] in
      if not enforce || not (any_local specs) || is_expected then none else some ollama_version

  -- The check of one entry against its expected digest.
  unfoldable pub check_digest : ℕ → ServedEntry → Option GateError
  check_digest i e =
      let found : Option GateError = elim (s.expected_digest e.model_name) [
        | none ↦ some (no_expected_digest i)
        | some expected ↦ elim e.identity_kind [
          | ollama_digest ↦ elim e.identity [
            | none ↦ some (digest_unavailable i)
            | some served ↦
                if length served == 0
                then some (digest_unavailable i)
                else if normalize_digest served == normalize_digest expected
                then none
                else some (digest_mismatch i)
          ]
          | other ↦ some (digest_unavailable i)
        ]
      ] in
      if is_openrouter e.provider then none else found

  abbrev pub check_routing : ℕ → ServedEntry → Option GateError
  check_routing i e =
      let found : Option GateError = elim e.routing [
        | none ↦ some (no_routing i)
        | some r ↦ none
      ] in
      if is_openrouter e.provider then found else none

  -- The loops over the snapshot: its keys are the indices as texts, which sort in order up to ten seats.
  unfoldable pub first_error :
      (ℕ → ServedEntry → Option GateError) → ℕ → List ServedEntry → Option GateError
  first_error check i [] = none
  first_error check i (e ∷ es) =
      let rest = first_error check (suc i) es in elim (check i e) [ none ↦ rest | some x ↦ some x ]

  unfoldable pub enforce_local_digests : Bool → List ServedEntry → Option GateError
  enforce_local_digests enforce snapshot =
      if enforce then first_error check_digest 0 snapshot else none

  unfoldable pub enforce_openrouter_routing : Bool → List ServedEntry → Option GateError
  enforce_openrouter_routing enforce snapshot =
      if enforce then first_error check_routing 0 snapshot else none

  unfoldable pub served_registry_snapshot : Bool → List SeatSpec → Gated (List ServedEntry)
  served_registry_snapshot enforce specs =
      let snapshot = model_registry_snapshot specs in
      elim (enforce_ollama_version enforce specs) [
        | some x ↦ refused x
        | none ↦ elim (enforce_local_digests enforce snapshot) [
          | some x ↦ refused x
          | none ↦ elim (enforce_openrouter_routing enforce snapshot) [
            | some x ↦ refused x
            | none ↦ passed snapshot
          ]
        ]
      ]

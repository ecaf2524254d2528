-- ===== src/Prometheus/Client.antt =====
-- internal/prometheus/client.go: one number from an instant query. The HTTP API of the Prometheus
-- library is a parameter; the deadline and the bearer token, which only it sees, are left out.
use reactive_policy.Common.{pos, String, List, [], ◌∷◌, length, Error, ErrorKind, Fallible, ok, err}
use reactive_policy.Platform.{Platform, Arg, wrap}

-- model.Value; `other` is any other type, by its name
pub data QueryResult (F : Type 0) : Type 0 where
  vector : List F → QueryResult F
  scalar : F → QueryResult F
  other : String → QueryResult F

-- promapi.NewClient and the client's Query
abbrev pub Api : Type 0 → Type 0 → Type 0
Api W F = String → Fallible (String → W → Fallible (QueryResult F) × W)

abbrev pub err_no_data : Error
err_no_data = record { kind = ErrorKind.other; message = "prometheus query returned no data" }

module _ {W F : Type 0} (p : Platform W F) where
  abbrev failed : String → List Arg → Error
  failed format args = record { kind = ErrorKind.other; message = p.sprintf format args }

  -- The value of a result
  unfoldable pub value_of : QueryResult F → Fallible F
  value_of (QueryResult.vector []) = err err_no_data
  value_of (QueryResult.vector (v ∷ [])) = ok v
  value_of (QueryResult.vector (v ∷ v' ∷ rest)) = err (
      failed "query returned %d samples, want an instant vector with exactly 1"
        (Arg.number (pos (length (v ∷ v' ∷ rest))) ∷ []))
  value_of (QueryResult.scalar v) = ok v
  value_of (QueryResult.other name) = err (
      failed "unexpected prometheus result type %T, want an instant vector or scalar"
        (Arg.text name ∷ []))

  abbrev read_answer : Fallible (QueryResult F) → Fallible F
  read_answer (err e) = err (wrap p "querying prometheus: %w" [] e)
  read_answer (ok result) = value_of result

  -- client.Query
  unfoldable pub query : (String → W → Fallible (QueryResult F) × W) → String → W → Fallible F × W
  unfolding value_of
  query ask text w = (read_answer (ask text w).0, (ask text w).1)

  -- NewClient
  unfoldable pub new_client : Api W F → String → Fallible (String → W → Fallible F × W)
  unfolding query
  new_client api endpoint = elim (api endpoint) [
    | err e ↦ err (wrap p "creating prometheus client for %q: %w" (Arg.text endpoint ∷ []) e)
    | ok ask ↦ ok (query ask)
  ]

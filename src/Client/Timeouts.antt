-- ===== src/Client/Timeouts.antt =====
-- The timeouts of the requests on collections, against the nanoseconds of their seconds.
use karydia.Common.{ℕ, ◌*◌, ◌≤◌, ◌<◌, String, ◌≡◌, ◌↔◌, some, arith}
use karydia.Client.Requests.{
  Payloads, ListOptions, Request, list_of, watch_of, delete_collection_of, timeout_of,
}

-- A request waits for as long as the seconds say: the number is not negative as an int64 and is the
-- nanoseconds.
abbrev pub WaitsFor : ℕ → {P : Payloads} → Request P → Type 0
WaitsFor seconds r = (r.timeout < 9223372036854775808) × (r.timeout ≡ seconds * 1000000000)

timeout_of_bounds :
    {Rest : Type 0} (opts : ListOptions Rest) (seconds : ℕ)
    → opts.timeout_seconds ≡ some seconds
    → ((timeout_of opts < 9223372036854775808) × (timeout_of opts ≡ seconds * 1000000000))
      ↔ seconds ≤ 9223372036
unfolding timeout_of
timeout_of_bounds opts seconds e =
    rw e (λ (below, same). omega arith, λ small. (omega arith, omega arith))

-- A list request with a timeout of some seconds, a watch and a deletion of a collection with the same wait
-- for exactly that time if and only if there are at most 9223372036 seconds. With more of them the product
-- does not fit into an int64.
pub timeout_bounds :
    (P : Payloads) (resource : String) (options : P.delete_options) (opts : ListOptions P.list_rest)
    (seconds : ℕ)
    → opts.timeout_seconds ≡ some seconds
    → (WaitsFor seconds (list_of {P = P} resource opts) ↔ seconds ≤ 9223372036)
      × (WaitsFor seconds (watch_of {P = P} resource opts) ↔ seconds ≤ 9223372036)
      × (WaitsFor seconds (delete_collection_of {P = P} resource options opts)
          ↔ seconds ≤ 9223372036)
unfolding list_of watch_of delete_collection_of
timeout_bounds P resource options opts seconds e =
    let bounds = timeout_of_bounds opts seconds e in (bounds, bounds, bounds)

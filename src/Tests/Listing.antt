-- ===== src/Tests/Listing.antt =====
-- A lister over an indexer whose objects are numbers: zero is of another kind, and the others are of the kind.
use karydia.Common.{
  String, Option, none, some, List, [], ◌∷◌, ◌==◌, if◌then◌else◌, true, ℕ, zero, suc, ◌≡◌, refl,
}
use karydia.Common.Run.{Error, ok, err, returns, panics}
use karydia.Client.Listers.{Indexer, list, get, append_each, list-kept}

abbrev missing : Error
missing = record { message = "not found"; is_not_found = true }

abbrev kind_of : ℕ → Option ℕ
kind_of zero = none
kind_of (suc n) = some n

abbrev found : String → Option ℕ
found name = if name == "first" then some 3 else (if name == "odd" then some 0 else none)

abbrev numbered : Indexer ℕ ℕ (List ℕ)
numbered = record {
  get_by_key = λ name. ok (found name);
  list_all = λ objects. (objects, none);
  as_kind = kind_of;
  new_not_found = λ name. missing;
}

listed : list numbered (3 ∷ 1 ∷ []) ≡ returns (2 ∷ 0 ∷ [], none)
listed = list-kept numbered suc (λ x. refl) (3 ∷ 1 ∷ []) (2 ∷ 0 ∷ []) none refl

listed_other : list numbered (3 ∷ 0 ∷ []) ≡ panics
unfolding list append_each
listed_other = refl

got : get numbered "first" ≡ returns (ok 2)
unfolding get
got = refl

got_other : get numbered "odd" ≡ panics
unfolding get
got_other = refl

got_none : get numbered "second" ≡ returns (err missing)
unfolding get
got_none = refl

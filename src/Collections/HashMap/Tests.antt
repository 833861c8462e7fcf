-- ===== src/Collections/HashMap/Tests.antt =====
-- A map from numbers with two entries in three arrays.
use lralloc_rs.Common.{
  ℕ, ◌+◌, ◌≡◌, refl, true, some, none, [], ◌∷◌, ◌==◌, ==_iff, Bool, arith, Outcome, returned, ◌>>=◌,
  Returns,
}
use lralloc_rs.Collections.HashMap.{
  HashMap, must_grow, insert, insert_grown, grow, remove_key, or_insert, contains,
}
use lralloc_rs.Collections.HashMap.Table.{IsValid}
use lralloc_rs.Collections.HashMap.Update.{Updates, insert-Updates, remove_key-Updates}

abbrev test : ℕ → ℕ → Bool
test a b = a == b

abbrev itself : ℕ → ℕ
itself k = k

abbrev two_entries : HashMap ℕ ℕ
two_entries = record {
  buckets =
      []
      ∷ (record { hash = 1; key = 1; value = 10 } ∷ [])
      ∷ (record { hash = 2; key = 5; value = 50 } ∷ [])
      ∷ [];
  containers_used = 2;
  len = 2;
}

two_entries-IsValid : IsValid itself test ==_iff two_entries
two_entries-IsValid = record {
  roomy = omega arith;
  placed = (tt, tt, ((refl, tt), (tt, tt), ((refl, tt), (tt, tt), tt)));
}

-- The map grows.
grows : must_grow two_entries ≡ true
grows = refl

insert-Updates_example :
    Returns
      (λ r. Updates itself test ==_iff 8 (some 80) two_entries r × (r.1.len ≡ 2 + 1))
      (insert itself test 8 80 two_entries)
insert-Updates_example = insert-Updates itself test ==_iff 8 80 two_entries two_entries-IsValid

remove_key-Updates_example :
    Returns
      (λ r. Updates itself test ==_iff 5 none two_entries r × (r.1.len + 1 ≡ 2))
      (remove_key itself test 5 two_entries)
remove_key-Updates_example =
    remove_key-Updates itself test ==_iff 5 two_entries two_entries-IsValid (omega arith)

abbrev twice : Outcome (ℕ × ℕ)
twice = or_insert itself test 10 0 two_entries >>= λ r.
    or_insert itself test 5 7 r.1 >>= λ s. returned (r.0, s.0)

-- As in a test of the repository: the value of a new entry, then of one that is there.
or_insert_twice : twice ≡ returned (0, 50)
unfolding or_insert insert insert_grown grow
or_insert_twice = refl

contains_5 : contains itself test 5 two_entries ≡ returned true
unfolding contains
contains_5 = refl

-- ===== src/Hosts/Tests.antt =====
-- Runs of the host table and instances of its theorems.
use yabber.Base.{
  ℕ, ◌≡◌, refl, false, ◌∷◌, if◌then◌else◌, ◌==◌, bytes_eq, some, ◌++◌, str, is_some, lookup, insert,
  cut, contains_byte,
}
use yabber.Hosts.{
  HostTable, star, star_dot, empty_table, set, get, match, match_wildcard, parent_of, or_try,
  kind_of, request_host, validate_host_pattern, invalid_host,
}
use yabber.Hosts.Table.{
  IsValid, get-set, match-label, match-star_dot, set-IsValid, empty_table-IsValid,
}

abbrev sample_table : HostTable ℕ
sample_table =
    (set (set (set empty_table star 1).0 (str "*.example.com") 2).0 (str "a.example.com") 3).0

precedence :
    (match sample_table (str "a.example.com") ≡ some 3)
    × (match sample_table (str "b.example.com") ≡ some 2)
    × (match sample_table (str "b.c.example.com") ≡ some 1)
unfolding match set get kind_of lookup insert match_wildcard parent_of
precedence = (refl, refl, refl)

names :
    (request_host (str "[::1]:8080") ≡ str "::1")
    × (request_host (str "Example.COM.:443") ≡ str "example.com")
    × (validate_host_pattern (λ _. false) (str "a.*.b") ≡ some (invalid_host (str "a.*.b")))
unfolding request_host validate_host_pattern cut
names = (refl, refl, refl)

get-set_example :
    (get (set sample_table (str "b.org") 4).0 (str "*")
      ≡ (if str "b.org" == str "*" then some 4 else get sample_table (str "*")))
    × ((set sample_table (str "b.org") 4).1 ≡ is_some (get sample_table (str "b.org")))
get-set_example = get-set sample_table 4 (str "b.org") (str "*")

match-label_example :
    match sample_table (str "b" ++ (b'.' ∷ str "example.com"))
    ≡ or_try
        (get sample_table (str "b" ++ (b'.' ∷ str "example.com")))
        (or_try (get sample_table (str "*." ++ str "example.com")) (get sample_table (str "*")))
unfolding kind_of contains_byte
match-label_example = match-label sample_table (str "b") (str "example.com") refl refl

sample_table-IsValid : IsValid sample_table
sample_table-IsValid =
    set-IsValid _ 3
      (set-IsValid _ 2 (set-IsValid _ 1 (empty_table-IsValid ℕ) star) (str "*.example.com"))
      (str "a.example.com")

match-star_dot_example :
    match sample_table (star_dot ++ str "example.com")
    ≡ or_try (get sample_table (star_dot ++ str "example.com")) (get sample_table star)
match-star_dot_example = match-star_dot sample_table (str "example.com") sample_table-IsValid

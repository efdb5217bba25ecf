-- ===== src/Proxy/Prefixes.antt =====
-- A prefix is stripped at whole segments only.
use yabber.Base.{
  ℕ, ◌≡◌, refl, true, false, if◌then◌else◌, some, [], ◌∷◌, ◌++◌, Bytes, str, eqb, cut_prefix, arith,
}
use yabber.Proxy.{cut_path_prefix, starts_segment}

cut_prefix-append : (prefix rest : Bytes) → cut_prefix (prefix ++ rest) prefix ≡ some rest
unfolding cut_prefix
cut_prefix-append [] rest = refl
cut_prefix-append (c ∷ prefix) rest = ground (arith, cut_prefix-append prefix rest)

-- Behind a prefix, a path is cut at a slash, and at the end of the path, where the root is left; it
-- is left whole where the prefix ends inside a segment.
pub cut_path_prefix-append :
    (prefix : Bytes) (c : ℕ) (rest : Bytes)
    → (cut_path_prefix (prefix ++ []) prefix ≡ (str "/", true))
      × (cut_path_prefix (prefix ++ (c ∷ rest)) prefix
          ≡ (if eqb c b'/' then (c ∷ rest, true) else (prefix ++ (c ∷ rest), false)))
unfolding cut_path_prefix starts_segment
cut_path_prefix-append prefix c rest = (
  rw (cut_prefix-append prefix [], cut_path_prefix) refl,
  rw (cut_prefix-append prefix (c ∷ rest), cut_path_prefix) refl,
)

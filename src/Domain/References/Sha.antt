-- ===== src/Domain/References/Sha.antt =====
-- crates/domain/src/lib.rs, `GitSha::new`: what an accepted object id is.
use localreview.Prelude.{
  ℕ, ◌≤◌, ◌≡◌, refl, subst, Bool, true, ◌||◌, [], ◌∷◌, map, All, arith, length, length-map,
}
use localreview.Prelude.Text.{Bytes}
use localreview.Prelude.Words.{between}
use localreview.Prelude.Result.{ok}
use localreview.Domain.References.{all_bytes, is_hex_digit, lowercase, git_sha}

-- `0` to `9` and `a` to `f`.
abbrev pub is_lower_hex : ℕ → Bool
is_lower_hex c = between 48 57 c || between b'a' b'f' c

lowercase_hex :
    (c : ℕ)
    → is_hex_digit c ≡ true
    → (is_lower_hex (lowercase c) ≡ true)
      × (is_hex_digit (lowercase c) ≡ true)
      × (lowercase (lowercase c) ≡ lowercase c)
lowercase_hex c h = ground arith

lowercased :
    (s : Bytes)
    → all_bytes is_hex_digit s ≡ true
    → All (λ c. is_lower_hex c ≡ true) (map lowercase s)
      × (all_bytes is_hex_digit (map lowercase s) ≡ true)
      × (map lowercase (map lowercase s) ≡ map lowercase s)
lowercased [] h = (tt, refl, refl)
lowercased (c ∷ s) h =
    let head : is_hex_digit c ≡ true = ground arith in
    let (lower, hex, idem) = lowercase_hex c head in
    let (lowers, hexes, idems) = lowercased s (rw (head, all_bytes) at h) in
    ((lower, lowers), rw hex hexes, λ i. idem i ∷ idems i)

-- The conditions of an accepted text.
accepted :
    (value sha : Bytes)
    → git_sha value ≡ ok sha
    → (between 7 64 (length value) ≡ true)
      × (all_bytes is_hex_digit value ≡ true)
      × (map lowercase value ≡ sha)
unfolding git_sha
accepted value sha h = ground arith

-- An accepted object id has 7 to 64 characters, all lower-case hexadecimal digits, and is accepted
-- again as it is.
pub git_sha_canonical :
    (value sha : Bytes)
    → git_sha value ≡ ok sha
    → (7 ≤ length sha)
      × (length sha ≤ 64)
      × All (λ c. is_lower_hex c ≡ true) sha
      × (git_sha sha ≡ ok sha)
unfolding git_sha
git_sha_canonical value sha h =
    let (long, hex, is_sha) = accepted value sha h in
    let (lowers, hexes, idem) = lowercased value hex in
    let size : length (map lowercase value) ≡ length value = length-map value lowercase in
    let again : between 7 64 (length (map lowercase value)) ≡ true = rw size long in
    let result : git_sha (map lowercase value) ≡ ok (map lowercase value) =
      rw (git_sha, again, hexes, idem) in
    subst
      (λ t.
        (7 ≤ length t) × (length t ≤ 64) × All (λ c. is_lower_hex c ≡ true) t × (git_sha t ≡ ok t))
      is_sha (ground (arith, again), ground (arith, again), lowers, result)

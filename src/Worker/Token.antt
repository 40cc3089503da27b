-- ===== src/Worker/Token.antt =====
-- crates/roadsim-worker-protocol/src/lib.rs: the authentication token, a text as its UTF-8 bytes.
pub mod Bits
pub mod Matches
use road_sim.Prelude.{
  ||-false, &&-true, subst₂, ltb, leb, ◌==◌, if◌then◌else◌, ltb→lt, lt→ltb, ==_iff, ==-refl,
  <→==-false, Bool-cases, Option-cases, length, length-append, is_empty, any, all, first_adjacent,
  any_adjacent, contains, first_repeated, or_else, is_some, Result, ok, err, reject_if, reject_some,
  ok_or, map_err, ◌>>=◌, ◌>>◌, for_each, Result-cases, >>=-eq-ok, >>-eq-ok, map_err-eq-ok,
  reject_if-eq-ok, reject_some-eq-ok, ok_eq, ℕ, zero, suc, ◌+◌, ◌-◌, ◌*◌, ◌/◌, ◌%◌, ◌^◌, ◌≤◌, ◌<◌,
  ◌≡◌, refl, sym, ap, ap₂, subst, ◌∙◌, ◌≢◌, ◌↔◌, ◌⊎◌, inl, inr, Bool, true, false, not, ◌&&◌, ◌||◌,
  Option, none, some, List, [], ◌∷◌, ◌++◌, map, Memᴰ, arith, insert_by, sort_by, sort_by_key,
  IsSorted, IsTotal, sort_by-IsSorted, key_le, key_le_total,
}
use Prim.Native.Nat.{bit_or, bit_xor}

pub record AuthToken : Type 0 where
  pub value : List ℕ

pub data TokenError : Type 0 where
  token_error : TokenError

-- `byte.is_ascii_digit() || (b'a'..=b'f').contains(&byte)`
abbrev pub is_hex : ℕ → Bool
is_hex byte = (leb 48 byte && leb byte 57) || (leb 97 byte && leb byte 102)

unfoldable pub parse : List ℕ → Result AuthToken TokenError
parse value =
    if not (length value == 64) || not (all is_hex value)
    then err token_error
    else ok (record { value = value })

-- `left.zip(right).fold(difference, |difference, (left, right)| difference | (left ^ right))`
unfoldable pub fold_difference : ℕ → List ℕ → List ℕ → ℕ
fold_difference difference [] right = difference
fold_difference difference (a ∷ left) [] = difference
fold_difference difference (a ∷ left) (b ∷ right) =
    fold_difference (bit_or difference (bit_xor a b)) left right

-- `AuthToken::matches`
unfoldable pub matches : AuthToken → AuthToken → Bool
unfolding fold_difference
matches token candidate = fold_difference 0 token.value candidate.value == 0

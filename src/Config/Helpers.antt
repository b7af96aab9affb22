-- ===== src/Config/Helpers.antt =====
-- The text helpers of src/config/config_manager.cpp.
use silicon.Prelude.{
  ℕ, ◌+◌, ◌-◌, Bool, true, false, not, ◌&&◌, List, [], ◌∷◌, ◌++◌, map, ltb, leb, ◌==◌,
  if◌then◌else◌, length, drop, is_empty,
}
use silicon.Text.{
  Str, codes, str_eq, starts_with, ends_with, back, char_at, tolower, mem, set_insert,
}
use silicon.FsPath.{slash}

unfoldable pub to_lower_copy : Str → Str
unfolding tolower
to_lower_copy value = map tolower value

-- "*.example.com" and the like: size > 2, pattern[0] == '*', pattern[1] == '.'
unfoldable pub is_wildcard : Str → Bool
unfolding char_at
is_wildcard pattern =
    ltb 2 (length pattern) && char_at pattern 0 == b'*' && char_at pattern 1 == b'.'

unfoldable pub match_domain_pattern : Str → Str → Bool
unfolding str_eq is_wildcard char_at ends_with
match_domain_pattern domain pattern =
    if str_eq pattern (codes "*")
    then true
    else if is_wildcard pattern
    then (let suffix = drop 2 pattern in
        if leb (length domain) (length suffix)
        then false
        else if not (ends_with domain suffix)
        then false
        else char_at domain (length domain - length suffix - 1) == b'.')
    else str_eq domain pattern

unfoldable pub has_prefix_path : Str → Str → Bool
unfolding starts_with back char_at
has_prefix_path path prefix =
    if is_empty prefix
    then false
    else if not (starts_with path prefix)
    then false
    else if length path == length prefix
    then true
    else if back prefix == slash
    then true
    else char_at path (length prefix) == slash

-- The loop of `dedupe_preserve_order`: what is left of the input, the set `seen`, the output.
unfoldable pub dedupe_from : List Str → List Str → List Str → List Str
dedupe_from [] seen output = output
dedupe_from (item ∷ input) seen output =
    dedupe_from input (set_insert item seen) (if mem item seen then output else output ++ item ∷ [])

unfoldable pub dedupe_preserve_order : List Str → List Str
unfolding dedupe_from set_insert mem
dedupe_preserve_order input = dedupe_from input [] []

-- The loop of `join_strings`: the items left, `count` and the stream so far.
unfoldable pub join_from : List Str → ℕ → ℕ → ℕ → Str → Str
join_from [] size limit count out = out
join_from (item ∷ items) size limit count out =
    let out' = (if ltb 0 count then out ++ codes ", " else out) ++ item in
    let rest = join_from items size limit (count + 1) out' in
    if leb limit (count + 1) then (if ltb limit size then out' ++ codes " ..." else out') else rest

unfoldable pub join_strings : List Str → ℕ → Str
unfolding join_from
join_strings items limit = if is_empty items then [] else join_from items (length items) limit 0 []

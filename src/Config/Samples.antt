-- ===== src/Config/Samples.antt =====
-- What join_strings of src/config/config_manager.cpp shows of a list.
use silicon.Prelude.{
  ℕ, zero, suc, ◌+◌, ◌≡◌, refl, List, [], ◌∷◌, ◌++◌, arith, length, take, ltb, if◌then◌else◌,
  append_nil, append_assoc,
}
use silicon.Text.{Str, codes}
use silicon.Config.Helpers.{join_from, join_strings}

abbrev pub separated : List Str → Str
separated [] = []
separated (item ∷ []) = item
separated (item ∷ next ∷ items) = item ++ (codes ", " ++ separated (next ∷ items))

abbrev pub dots : ℕ → List Str → Str
dots limit items = if ltb limit (length items) then codes " ..." else []

abbrev behind : ℕ → Str → Str
behind count out = if ltb 0 count then out ++ codes ", " else out

join_from-separated :
    (items : List Str) (item : Str) (size limit count r : ℕ) (out : Str)
    → limit ≡ count + suc r
    → size ≡ count + length (item ∷ items)
    → join_from (item ∷ items) size limit count out
      ≡ behind count out ++ (separated (take (suc r) (item ∷ items)) ++ dots (suc r) (item ∷ items))
unfolding join_from
join_from-separated items item size limit count zero out h k =
    let b : Str = behind count out in
    ground (arith, h, k, append_assoc b item (codes " ..."), append_nil item)
join_from-separated [] item size limit count (suc r) out h k = ground (arith, h, k, append_nil item)
join_from-separated (next ∷ items) item size limit count (suc r) out h k =
    let b : Str = behind count out in
    let rest : Str = separated (take (suc r) (next ∷ items)) in
    let more : Str = dots (suc r) (next ∷ items) in
    let step =
      join_from-separated items next size limit (count + 1) r (b ++ item) (omega (arith, h))
        (omega (arith, k)) in
    let moved : ((b ++ item) ++ codes ", ") ++ (rest ++ more)
        ≡ b ++ ((item ++ (codes ", " ++ rest)) ++ more) =
      simp append_assoc refl in
    ground (arith, h, step, moved)

-- How many items are shown at most: the limit is looked at behind an item, so that 0 shows one.
abbrev pub shown : ℕ → ℕ
shown zero = 1
shown (suc limit) = suc limit

-- join_strings shows the first items, as many as the limit allows but one at the limit 0, with ", "
-- between them, and " ..." behind them exactly when there are more items than the limit.
pub join_strings-separated :
    (items : List Str) (limit : ℕ)
    → join_strings items limit ≡ separated (take (shown limit) items) ++ dots limit items
unfolding join_strings join_from
join_strings-separated [] limit = ground arith
join_strings-separated (item ∷ items) zero = ground arith
join_strings-separated (item ∷ items) (suc limit) =
    join_from-separated items item (suc (length items)) (suc limit) 0 limit [] (omega arith)
      (omega arith)

-- ===== src/QueryData/Cursor.antt =====
-- The cursor over the result sets of a query, src/mysql/Query.h.
use my_sqloo.Base.{
  ℕ, zero, suc, ◌<◌, ◌≡◌, refl, if◌then◌else◌, false, List, [], ◌∷◌, length, arith, length-append,
}
use my_sqloo.Objects.{IQueryData, ResultData}
use my_sqloo.QueryData.{
  get_last_insert_id, get_affected_rows, has_more_results, get_next_results, push_result,
}

-- Each result set has its insert id and its number of affected rows.
pub record Aligned (d : IQueryData) : Type 0 where
  pub ids : length d.insert_ids ≡ length d.results
  pub affected : length d.affected_rows ≡ length d.results

pub push_result-Aligned :
    (r : ResultData) (i a : ℕ) (d : IQueryData) → Aligned d → Aligned (push_result r i a d)
unfolding push_result
push_result-Aligned r i a d v = record {
  ids =
      omega (
        arith,
        v.ids,
        length-append {0} d.insert_ids (i ∷ []),
        length-append {0} d.results (r ∷ []),
      );
  affected = omega (
    arith,
    v.affected,
    length-append {0} d.affected_rows (a ∷ []),
    length-append {0} d.results (r ∷ []),
  );
}

abbrev pub Visit : Type 0
Visit = ResultData × ℕ × ℕ

-- `n` rounds of reading the current result set with its insert id and affected rows, and advancing.
pub visit : ℕ → IQueryData → List Visit × IQueryData
visit zero d = ([], d)
visit (suc n) d = elim d.results [
  | [] ↦ ([], d)
  | r ∷ rs ↦
      let (d', more) = get_next_results d in
      let (later, last) = visit n d' in
      if more then ((r, get_last_insert_id d, get_affected_rows d) ∷ later, last) else ([], d)
]

abbrev pub zip3 : List ResultData → List ℕ → List ℕ → List Visit
zip3 (r ∷ rs) (i ∷ is) (a ∷ as') = (r, i, a) ∷ zip3 rs is as'
zip3 _ _ _ = []

visit-zip3 :
    (n : ℕ) (rs : List ResultData) (is as' : List ℕ) (d : IQueryData)
    → d.results ≡ rs
    → d.insert_ids ≡ is
    → d.affected_rows ≡ as'
    → length rs < n
    → ((visit n d).0 ≡ zip3 rs is as') × (has_more_results (visit n d).1 ≡ false)
unfolding visit get_next_results get_last_insert_id get_affected_rows
visit-zip3 zero rs is as' d p q t h = absurd (omega arith)
visit-zip3 (suc n) [] is as' d p q t h = ground arith
visit-zip3 (suc n) (r ∷ rs) [] as' d p q t h = ground arith
visit-zip3 (suc n) (r ∷ rs) (i ∷ is) [] d p q t h = ground arith
visit-zip3 (suc n) (r ∷ rs) (i ∷ is) (a ∷ as') d p q t h =
    ground (arith, visit-zip3 n rs is as' (get_next_results d).0)

-- With more rounds than result sets, the caller sees each result set once, in order, with the
-- insert id and the affected rows at its place, and then there are no more results. Where the
-- three sequences differ in length, it stops at the end of the shortest.
pub visit_all :
    (n : ℕ) (d : IQueryData)
    → length d.results < n
    → ((visit n d).0 ≡ zip3 d.results d.insert_ids d.affected_rows)
      × (has_more_results (visit n d).1 ≡ false)
visit_all n d h = visit-zip3 n d.results d.insert_ids d.affected_rows d refl refl refl h

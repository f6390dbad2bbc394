-- ===== src/Search/Service/Exact.antt =====
-- Which comics a search returns when the limit leaves none out.
use microservice_comics.Base.{
  ℕ, ◌≤◌, ◌<◌, ◌^◌, String, List, [], ◌∷◌, map, filter, ok, map_ok, ◌≡◌, ◌↔◌, inl, inr, refl, ap,
  ◌∙◌, arith, Elem, length, length-map, take, take_of_length-le, >>=-eq-ok, reject_if, err_ok,
  trim_space, string_eq, ◌==◌, ltb, Bool-cases,
}
use microservice_comics.Search.Model.{Comics, Words, HasDistinctIds}
use microservice_comics.Search.Index.{build}
use microservice_comics.Search.Index.Candidates.{HasAnyToken}
use microservice_comics.Search.Rank.{Scored, score_comic, scored_list, comics_of, rang_comics}
use microservice_comics.Search.Rank.Score.{score_comic-pos_iff}
use microservice_comics.Search.Rank.Results.{ranking, length-ranking, rang_comics_lem, Elem-ranking}
use microservice_comics.Search.Storage.{ComicsRow, to_comics, is_candidate, open_db}
use microservice_comics.Search.Storage.Laws.{open_db-Snapshot, Elem-filter-map}
use microservice_comics.Search.Service.{tokens_for, or_default, find, indexed_search}
use microservice_comics.Search.Service.Agreement.{indexed_search-find}
use microservice_comics.Search.Service.Pages.{answering}

Elem-comics_of :
    (c : Comics) (l : List Scored)
    → Elem c (comics_of l) ↔ ((s : Scored) × Elem s l × (c ≡ s.comic))
Elem-comics_of c [] = (λ m. absurd m, λ k. absurd k.1)
Elem-comics_of c (x ∷ l) =
    let (to, from) = Elem-comics_of c l in
    (
      λ m. elim m [
        | inl same ↦ (x, inl refl, same)
        | inr later ↦ (let k = to later in (k.0, inr k.1, k.2))
      ],
      λ (s, here, same). elim here [
        | inl e ↦ inl (same ∙ ap (λ (r : Scored). r.comic) e)
        | inr later ↦ inr (from (s, later, same))
      ],
    )

-- The comics of the ranking.
Elem-comics_of-ranking :
    (c : Comics) (cs : List Comics) (toks : List String)
    → Elem c (comics_of (ranking cs toks)) ↔ (Elem c cs × HasAnyToken c toks)
Elem-comics_of-ranking c cs toks =
    let (to, from) = Elem-comics_of c (ranking cs toks) in
    (
      λ m.
          let (s, here, same) = to m in
          let (listed, score, positive) = (Elem-ranking s cs toks).0 here in
          rw same (listed, (score_comic-pos_iff s.comic toks).0 (omega (arith, score, positive))),
      λ (listed, tok). from (
        record { comic = c; score = score_comic c toks },
        (Elem-ranking _ cs toks).1 (listed, refl, (score_comic-pos_iff c toks).1 tok),
        refl,
      ),
    )

length-scored_list-le :
    (cs : List Comics) (toks : List String) → length (scored_list cs toks) ≤ length cs
unfolding scored_list
length-scored_list-le [] toks = omega arith
length-scored_list-le (c ∷ cs) toks = ground (arith, length-scored_list-le cs toks)

-- With room for all, every comic with a token of the query is returned.
Elem-rang_comics :
    (c : Comics) (cs : List Comics) (toks : List String) (limit : ℕ)
    → length cs ≤ limit
    → limit ≤ 100
    → Elem c (rang_comics cs toks limit).0 ↔ (Elem c cs × HasAnyToken c toks)
Elem-rang_comics c cs toks limit few small =
    let scored = length-scored_list-le cs toks in
    let bounded : length (scored_list cs toks) < 2 ^ 32 = omega arith in
    let all : take limit (ranking cs toks) ≡ ranking cs toks =
      take_of_length-le limit (ranking cs toks) (omega (arith, length-ranking cs toks)) in
    rw (rang_comics_lem cs toks limit bounded) (rw all (Elem-comics_of-ranking c cs toks))

-- What passes the checks has a limit of at most a hundred.
tokens_for-limit :
    (words : Words) (phrase : String) (limit : ℕ) (tokens : List String)
    → tokens_for words phrase limit ≡ ok tokens
    → or_default limit ≤ 100
unfolding tokens_for
tokens_for-limit words phrase limit tokens h =
    let (u, full, rest) = >>=-eq-ok (reject_if (trim_space phrase == "") _) _ h in
    let (v, fits, more) = >>=-eq-ok (reject_if (ltb 100 (or_default limit)) _) _ rest in
    elim (Bool-cases (ltb 100 (or_default limit))) [
      | inl e ↦ absurd (err_ok (rw e at fits))
      | inr e ↦ ground arith
    ]

module _ (rows : List ComicsRow) (distinct : HasDistinctIds (map to_comics rows)) (words : Words)
    (phrase : String) (limit : ℕ) (tokens : List String)
    (given : tokens_for words phrase limit ≡ ok tokens)
    (few : length (filter (is_candidate tokens) rows) ≤ or_default limit) where
  -- Let the ids of the table be distinct, the checks of the phrase and of the limit give tokens, and
  -- no more rows than the limit share a token with them. Then both searches, the one by the database
  -- and the one by an index of the table, succeed with the same list, which has just the comics of
  -- the table with a non-empty token of the query.
  pub searches_exactly :
      (cs : List Comics) × (find (answering rows) words phrase limit ≡ ok cs)
      × (map_ok
            (λ (r : List Comics × ℕ). r.0)
            (indexed_search (build (map to_comics rows)) words phrase limit)
          ≡ ok cs)
      × ((c : Comics) → Elem c cs ↔ (Elem c (map to_comics rows) × HasAnyToken c tokens))
  unfolding find open_db
  searches_exactly =
      let hits = map to_comics (filter (is_candidate tokens) rows) in
      let small = tokens_for-limit words phrase limit tokens given in
      let fits : length hits ≤ or_default limit =
        omega (arith, few, length-map to_comics (filter (is_candidate tokens) rows)) in
      let found : find (answering rows) words phrase limit
          ≡ ok (rang_comics hits tokens (or_default limit)).0 =
        rw given refl in
      (
        (rang_comics hits tokens (or_default limit)).0,
        found,
        indexed_search-find (open_db-Snapshot rows distinct) words phrase limit ∙ found,
        λ c.
            let (to, from) = Elem-rang_comics c hits tokens (or_default limit) fits small in
            let (to_row, from_row) = Elem-filter-map tokens c rows in
            (
              λ m. (let k = to m in ((to_row k.0).0, k.1)),
              λ (listed, tok). from (from_row (listed, (tok.0, tok.1, tok.3)), tok),
            ),
      )

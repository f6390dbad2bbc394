-- ===== src/Search/Service/Agreement.antt =====
-- The search by the database and the search by the index give the same result.
use microservice_comics.Base.{
  ℕ, zero, suc, ℤ, String, List, [], ◌∷◌, ◌≡◌, ◌↔◌, refl, sym, ap, ◌∙◌, Result, ok, err, ◌>>=◌,
  map_ok, Elem, arith,
}
use microservice_comics.Search.Model.{Comics, Error, Db, Words, tokens_of, HasDistinctIds}
use microservice_comics.Search.Index.{InvertedIndex, build, docs_for_tokens, docs_by_ids}
use microservice_comics.Search.Index.Candidates.{build_candidates}
use microservice_comics.Search.Index.Distinct.{candidates-HasDistinctIds}
use microservice_comics.Search.Rank.{rang_comics}
use microservice_comics.Search.Rank.Score.{score_comic-pos_iff}
use microservice_comics.Search.Rank.Order.{rang_comics_same}
use microservice_comics.Search.Service.{tokens_for, find, indexed_search, or_default, ranked}

-- Some token of the query, empty ones included, stands in some field of the comic.
abbrev pub Overlaps : Comics → List String → Type 0
Overlaps c tokens = (t : String) × Elem t tokens × Elem t (tokens_of c)

-- The contract of the port at one state of the table: the comics have distinct ids, `All` returns
-- them, and `Find` those which the query overlaps, in any order.
pub record Snapshot (db : Db) (rows : List Comics) : Type 0 where
  pub distinct : HasDistinctIds rows
  pub all_rows : db.all ≡ ok rows
  pub found :
      (tokens : List String)
      → (cs : List Comics) × (db.find tokens ≡ ok cs)
        × HasDistinctIds cs
        × ((c : Comics) → Elem c cs ↔ (Elem c rows × Overlaps c tokens))

rang_comics_nil : (tokens : List String) (limit : ℕ) → rang_comics [] tokens limit ≡ ([], 0)
unfolding rang_comics
rang_comics_nil tokens zero = refl
rang_comics_nil tokens (suc limit) = ground arith

pub ranked-rang_comics :
    (index : InvertedIndex) (tokens : List String) (limit : ℕ)
    → ranked index tokens limit (docs_for_tokens index tokens)
      ≡ rang_comics (docs_by_ids index (docs_for_tokens index tokens)) tokens limit
unfolding docs_by_ids
ranked-rang_comics index tokens limit = go (docs_for_tokens index tokens)
  where
    go :
        (ids : List ℤ)
        → ranked index tokens limit ids ≡ rang_comics (docs_by_ids index ids) tokens limit
    go [] = sym (rang_comics_nil tokens limit)
    go (id ∷ ids) = refl

module _ {db : Db} {rows : List Comics} (snap : Snapshot db rows) where
  rang_found :
      (tokens : List String) (limit : ℕ) (cs : List Comics)
      → HasDistinctIds cs
      → ((c : Comics) → Elem c cs ↔ (Elem c rows × Overlaps c tokens))
      → rang_comics (docs_by_ids (build rows) (docs_for_tokens (build rows) tokens)) tokens limit
        ≡ rang_comics cs tokens limit
  rang_found tokens limit cs d same =
      rang_comics_same _ cs tokens (candidates-HasDistinctIds rows tokens snap.distinct) d
        (λ c positive.
          let (t, asked, full, here) = (score_comic-pos_iff c tokens).0 positive in
          let (to, from) = build_candidates rows tokens c snap.distinct in
          (
            λ m. (same c).1 ((to m).0, (t, asked, here)),
            λ m. from (((same c).0 m).0, (t, asked, full, here)),
          ))
        limit

  -- While the port keeps the contract `Snapshot`, the search by an index that was built from the
  -- rows returns the comics that the search by the database returns, in the same order, and fails
  -- with the same error.
  pub indexed_search-find :
      (words : Words) (phrase : String) (limit : ℕ)
      → map_ok (λ (r : List Comics × ℕ). r.0) (indexed_search (build rows) words phrase limit)
        ≡ find db words phrase limit
  unfolding indexed_search find
  indexed_search-find words phrase limit = go (tokens_for words phrase limit)
    where
      go :
          (m : Result Error (List String))
          → map_ok
              (λ (r : List Comics × ℕ). r.0)
              (do
                tokens ← m
                ok (
                    ranked
                      (build rows)
                      tokens
                      (or_default limit)
                      (docs_for_tokens (build rows) tokens)))
            ≡ (do
              tokens ← m
              comics ← db.find tokens
              ok (rang_comics comics tokens (or_default limit)).0)
      go (err e) = refl
      go (ok tokens) =
          let (cs, answer, d, same) = snap.found tokens in
          rw answer (
            ap (λ (r : List Comics × ℕ). ok r.0)
              (ranked-rang_comics (build rows) tokens (or_default limit)
                ∙ rang_found tokens (or_default limit) cs d same))

-- ===== src/Search/Unordered.antt =====
-- The table of comics as a set: `SELECT … FROM comics` of search-services/search/adapters/db says
-- nothing of the order of the rows, and core/index.go and core/service.go make nothing of it.
use mathlib.Core.HLevel.{Discrete, hedberg}
use mathlib.Core.Path.{fun_ext}
use mathlib.Core.Quot
use mathlib.Core.Quot.{Quot}
use native.Mathlib.Decide.{ℕ_discrete}
use microservice_comics.Base.{
  ℕ, String, List, Result, ok, ◌>>=◌, ◌≡◌, ◌↔◌, string_eq, ◌==◌, ==→≡, ==_refl, Bool-cases, inl,
  inr, sym, ap, ◌∙◌, Elem,
}
use microservice_comics.Search.Model.{Comics, Error, Words, HasDistinctIds}
use microservice_comics.Search.Index.{build, docs_for_tokens, docs_by_ids}
use microservice_comics.Search.Index.Candidates.{build_candidates}
use microservice_comics.Search.Index.Distinct.{candidates-HasDistinctIds}
use microservice_comics.Search.Rank.Order.{SameScoring, rang_comics_same}
use microservice_comics.Search.Service.{indexed_search, tokens_for, or_default}
use microservice_comics.Search.Service.Agreement.{ranked-rang_comics}

String-discrete : Discrete String
String-discrete s t = elim (Bool-cases (s == t)) [
  | inl e ↦ yes (==→≡ s t e)
  | inr e ↦ no (λ p. cc (p, ==_refl s, e))
]

pub Reply-set : IsSet (Result Error (List Comics × ℕ))
Reply-set = hedberg (hlevel (ℕ_discrete, String-discrete))

-- What a SELECT returns: the rows in some order, each id once.
abbrev pub Listing : Type 0
Listing = (rows : List Comics) × HasDistinctIds rows

abbrev pub SameRows : Listing → Listing → Type 0
SameRows a b = (c : Comics) → Elem c a.0 ↔ Elem c b.0

-- The table without an order of its rows.
abbrev pub Table : Type 0
Table = Quot SameRows

module _ (a b : Listing) (same : SameRows a b) where
  same_candidates :
      (tokens : List String)
      → SameScoring
          (docs_by_ids (build a.0) (docs_for_tokens (build a.0) tokens))
          (docs_by_ids (build b.0) (docs_for_tokens (build b.0) tokens))
          tokens
  same_candidates tokens c positive =
      let (to, from) = build_candidates a.0 tokens c a.1 in
      let (to', from') = build_candidates b.0 tokens c b.1 in
      (λ m. from' ((same c).0 (to m).0, (to m).1), λ m. from ((same c).1 (to' m).0, (to' m).1))

  pub indexed_search_same :
      (words : Words) (phrase : String) (limit : ℕ)
      → indexed_search (build a.0) words phrase limit
        ≡ indexed_search (build b.0) words phrase limit
  unfolding indexed_search
  indexed_search_same words phrase limit =
      ap
        (λ (f : List String → List Comics × ℕ). (do
          tokens ← tokens_for words phrase limit
          ok (f tokens)))
        (fun_ext (λ tokens.
          ranked-rang_comics (build a.0) tokens (or_default limit)
          ∙ (rang_comics_same _ _ tokens (candidates-HasDistinctIds a.0 tokens a.1)
                (candidates-HasDistinctIds b.0 tokens b.1) (same_candidates tokens)
                (or_default limit)
              ∙ sym (ranked-rang_comics (build b.0) tokens (or_default limit)))))

-- A search by an index of the table, whatever the order in which its rows came.
unfoldable pub search_table : Words → String → ℕ → Table → Result Error (List Comics × ℕ)
search_table words phrase limit =
    Quot.lift Reply-set (λ l. indexed_search (build l.0) words phrase limit)
      (λ a b same. indexed_search_same a b same words phrase limit)

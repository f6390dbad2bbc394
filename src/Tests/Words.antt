-- ===== src/Tests/Words.antt =====
-- The theorems on the words service, at the phrase "A 7, a7 7".
use microservice_comics.Base.{[], ◌∷◌, ◌++◌, map, none, ◌≡◌, ◌↔◌, refl, text_eq, ◌==◌, Elem}
use microservice_comics.Words.Service.{Text, Snowball, to_lower, tokens_of, norm}
use microservice_comics.Words.Runs.{tokens_apart}
use microservice_comics.Words.Laws.{Gives, norm_words}

abbrev snowball : Snowball
snowball = record { is_stop_word = λ t. t == (b'a' ∷ []); stem = λ t. none }

abbrev phrase : Text
phrase = b'A' ∷ b' ' ∷ b'7' ∷ b',' ∷ b' ' ∷ b'a' ∷ b'7' ∷ b' ' ∷ b'7' ∷ []

words : norm snowball phrase ≡ (b'7' ∷ []) ∷ (b'a' ∷ b'7' ∷ []) ∷ []
unfolding norm
words = refl

norm_words_example :
    Elem (b'7' ∷ []) (norm snowball phrase)
    ↔ ((t : Text) × Elem t (tokens_of phrase) × Gives snowball t (b'7' ∷ []))
norm_words_example = norm_words snowball phrase (b'7' ∷ [])

-- "A7" and "b", with ", " between them.
tokens_apart_example :
    (tokens_of ((b'A' ∷ b'7' ∷ []) ++ b',' ∷ ((b' ' ∷ []) ++ b'b' ∷ []))
      ≡ tokens_of (b'A' ∷ b'7' ∷ []) ++ tokens_of (b'b' ∷ []))
    × (tokens_of (map to_lower (b'A' ∷ b'7' ∷ []) ++ b',' ∷ ((b' ' ∷ []) ++ b'b' ∷ []))
        ≡ tokens_of (b'A' ∷ b'7' ∷ []) ++ tokens_of (b'b' ∷ []))
tokens_apart_example = tokens_apart (b'A' ∷ b'7' ∷ []) b',' (b' ' ∷ []) (b'b' ∷ []) refl (refl, tt)

-- ===== src/Sessions/Words.antt =====
-- The words of the command line that stream_function of src/mod_audio_stream.c reads.
use mod_audio_stream.Common.{
  ℕ, zero, suc, ◌≡◌, refl, ap, ap₂, sym, ◌∙◌, ◌≤◌, ◌<◌, List, [], ◌∷◌, true, false, ◌&&◌, none,
  String, codes, text_eq, map, length, get_elem?, ltb, ◌==◌, ==_iff, bind-some, bind-none, arith,
  if-true, if-false, inl, inr, Bool-cases, Option-cases,
}
use mod_audio_stream.SwitchBuffer.{SwitchBuffer}
use mod_audio_stream.Sessions.{Channel}
use mod_audio_stream.Sessions.Api.{
  ApiEnv, lower, same_word, same_text, read_start, run_start, run_word, stream_function,
}

pub text_eq_sound : (s t : List ℕ) → text_eq s t ≡ true → s ≡ t
text_eq_sound [] [] e = refl
text_eq_sound [] (b ∷ t) e = cc
text_eq_sound (a ∷ s) [] e = cc
text_eq_sound (a ∷ s) (b ∷ t) e = elim (Bool-cases (a == b)) [
  | inl same ↦
      ap₂ (λ c u. c ∷ u) ((==_iff a b).0 same)
        (text_eq_sound s t (sym (ap (λ c. c && text_eq s t) same) ∙ e))
  | inr other ↦ cc (sym (ap (λ c. c && text_eq s t) other) ∙ e)
]

-- A word that is `start` is no other word.
start_word :
    (word other : String)
    → same_word word "start" ≡ true
    → same_word word other ≡ text_eq (codes "start") (map lower (codes other))
start_word word other e =
    ap (λ u. text_eq u (map lower (codes other)))
      (text_eq_sound (map lower (codes word)) (codes "start") e)

get_elem?-beyond {ℓ} : {A : Type ℓ} (xs : List A) (n : ℕ) → length xs ≤ n → get_elem? xs n ≡ none
get_elem?-beyond [] n h = refl
get_elem?-beyond (x ∷ xs) zero h = absurd (omega (arith, h))
get_elem?-beyond (x ∷ xs) (suc n) h = get_elem?-beyond xs n (omega (arith, h))

module _ {B R : Type 0} (buffers : SwitchBuffer B) (e : ApiEnv R) where
  run_start-few :
      (argv : List String) (s : Channel B R) → length argv ≤ 8 → run_start buffers e argv s ≡ none
  unfolding run_start read_start
  run_start-few argv s few = elim (Option-cases (get_elem? argv 4)) [
    | inl missing ↦ bind-none _ _ missing
    | inr (track, there) ↦
        bind-some _ _ track there ∙ bind-none _ _ (bind-none _ _ (get_elem?-beyond argv 8 few))
  ]

  pub run_word-start :
      (word id : String) (argv : List String) (s : Channel B R)
      → same_word word "start" ≡ true
      → run_word buffers e word id argv s ≡ run_start buffers e argv s
  unfolding run_word
  run_word-start word id argv s w =
      if-false _ _ (start_word word "stop" w)
      ∙ (if-false _ _ (start_word word "pause" w)
          ∙ (if-false _ _ (start_word word "resume" w)
              ∙ (if-false _ _ (start_word word "graceful-shutdown" w)
                  ∙ (if-false _ _ (start_word word "send_text" w)
                      ∙ (if-false _ _ (start_word word "openai_start" w) ∙ if-true _ _ w)))))

  -- A start command, in any case of letters, for a session that is found, with fewer than nine
  -- words, and with at least five if it is in lower case: it is a fault, since a word that is not
  -- there is read.
  pub stream_function-few_fault :
      (session id word : String) (others : List String) (s : Channel B R)
      → same_word word "start" ≡ true
      → (same_text word "start" && ltb (length others) 2) ≡ false
      → length others < 6
      → e.session_found ≡ true
      → stream_function buffers e (session ∷ id ∷ word ∷ others) s ≡ none
  unfolding stream_function
  stream_function-few_fault session id word others s w no_usage few found =
      if-false _ _ no_usage
      ∙ (if-true _ _ found
          ∙ (run_word-start word id (session ∷ id ∷ word ∷ others) s w
              ∙ run_start-few (session ∷ id ∷ word ∷ others) s (omega (arith, few))))

-- ===== src/Uri/Groups.antt =====
-- The groups of the regular expression of parse_ws_uri (src/lws_glue.cpp).
use mod_audio_stream.Common.{
  ℕ, ◌≡◌, refl, sym, ap, ◌∙◌, List, [], ◌∷◌, ◌++◌, Bool, true, false, ◌&&◌, not, none, some, ◌==◌,
  arith, All, All-append, append_assoc,
}
use mod_audio_stream.Uri.{
  is_digit, is_line_end, no_line_end, skip_colon, digits, after_digits, path_end, after_host,
  groups,
}

-- A character of a host's name.
abbrev pub is_name : ℕ → Bool
is_name c = not (c == b':') && (not (c == b'/') && not (is_line_end c))

abbrev pub IsName : List ℕ → Type 0
IsName = All (λ c. is_name c ≡ true)

abbrev pub AllDigits : List ℕ → Type 0
AllDigits = All (λ c. is_digit c ≡ true)

-- The last character is there, and is no digit.
abbrev pub ends_in_letter : List ℕ → Bool
ends_in_letter [] = false
ends_in_letter (c ∷ []) = not (is_digit c)
ends_in_letter (c ∷ d ∷ s) = ends_in_letter (d ∷ s)

-- A path is empty, or begins with a slash and stays on its line.
abbrev pub IsPath : List ℕ → Type 0
IsPath [] = Unit
IsPath (c ∷ s) = (c ≡ b'/') × (no_line_end s ≡ true)

-- Digits, and then a text that does not begin with one.
pub digits-append : (d t : List ℕ) → AllDigits d → digits t ≡ [] → digits (d ++ t) ≡ d
unfolding digits
digits-append [] t h e = e
digits-append (c ∷ d) t h e = ground (arith, digits-append d t h.1 e)

pub after_digits-append : (d t : List ℕ) → AllDigits d → after_digits (d ++ t) ≡ after_digits t
unfolding after_digits
after_digits-append [] t h = refl
after_digits-append (c ∷ d) t h = ground (arith, after_digits-append d t h.1)

pub digits-path : (p : List ℕ) → IsPath p → (digits p ≡ []) × (path_end (after_digits p) ≡ some p)
unfolding digits after_digits path_end
digits-path [] h = (refl, refl)
digits-path (c ∷ p) h = (ground arith, ground arith)

-- No match begins within a text that has no slash and whose last character is no digit.
path_end-none :
    (s t : List ℕ)
    → All (λ c. (c == b'/') ≡ false) s
    → ends_in_letter s ≡ true
    → path_end (after_digits (s ++ t)) ≡ none
unfolding path_end after_digits
path_end-none [] t h e = cc
path_end-none (c ∷ []) t h e = ground arith
path_end-none (c ∷ d ∷ s) t h e = ground (arith, path_end-none (d ∷ s) t h.1 e)

name_slash : (s : List ℕ) → IsName s → All (λ c. (c == b'/') ≡ false) s
name_slash [] h = tt
name_slash (c ∷ s) h = (ground arith, name_slash s h.1)

-- Behind none of the characters of a host do the other groups match.
abbrev pub Stuck : List ℕ → List ℕ → Type 0
Stuck [] t = Unit
Stuck (c ∷ s) t = (after_host ((c ∷ s) ++ t) ≡ none) × Stuck s t

-- A host that ends in a letter.
pub letter-Stuck : (s t : List ℕ) → IsName s → ends_in_letter s ≡ true → Stuck s t
unfolding after_host skip_colon
letter-Stuck [] t h e = tt
letter-Stuck (c ∷ []) t h e =
    let n = path_end-none (c ∷ []) t (name_slash (c ∷ []) h) e in (ground (arith, n), tt)
letter-Stuck (c ∷ d ∷ s) t h e =
    let n = path_end-none (c ∷ d ∷ s) t (name_slash (c ∷ d ∷ s) h) e in
    (ground (arith, n), letter-Stuck (d ∷ s) t h.1 e)

ends-colon : (s : List ℕ) → ends_in_letter (s ++ b':' ∷ []) ≡ true
ends-colon [] = refl
ends-colon (c ∷ []) = refl
ends-colon (c ∷ d ∷ s) = ends-colon (d ∷ s)

-- A host that a colon follows.
pub colon-Stuck : (s t : List ℕ) → IsName s → Stuck s (b':' ∷ t)
unfolding after_host skip_colon
colon-Stuck [] t h = tt
colon-Stuck (c ∷ s) t h =
    let slashes = All-append _ (c ∷ s) (b':' ∷ []) (name_slash (c ∷ s) h, (refl, tt)) in
    let n = path_end-none ((c ∷ s) ++ b':' ∷ []) t slashes (ends-colon (c ∷ s)) in
    let e = append_assoc (c ∷ s) (b':' ∷ []) t in
    let m : path_end (after_digits (c ∷ (s ++ b':' ∷ t))) ≡ none =
      ap (λ u. path_end (after_digits u)) (sym e) ∙ n in
    (ground (arith, m), colon-Stuck s t h.1)

pub groups-host :
    (c : ℕ) (s t port path : List ℕ)
    → IsName (c ∷ s)
    → Stuck s t
    → after_host t ≡ some (port, path)
    → groups ((c ∷ s) ++ t) ≡ some (c ∷ s, port, path)
unfolding groups
groups-host c [] t port path h k e = ground (arith, e)
groups-host c (d ∷ s) t port path h k e = ground (arith, k.0, groups-host d s t port path h.1 k.1 e)

-- Digits and then a path, past a colon, are the two groups.
pub after_host-digits :
    (s d path : List ℕ)
    → skip_colon s ≡ d ++ path
    → AllDigits d
    → IsPath path
    → after_host s ≡ some (d, path)
unfolding after_host
after_host-digits s d path q a p =
    let (e, f) = digits-path path p in
    let g : path_end (after_digits (skip_colon s)) ≡ some path =
      ap (λ t. path_end (after_digits t)) q ∙ ap path_end (after_digits-append d path a) ∙ f in
    let k : digits (skip_colon s) ≡ d = ap digits q ∙ digits-append d path a e in rw (g, k)

pub skip_colon-path : (path : List ℕ) → IsPath path → skip_colon path ≡ path
unfolding skip_colon
skip_colon-path [] h = refl
skip_colon-path (c ∷ s) h = ground arith

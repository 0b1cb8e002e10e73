-- ===== src/Loom/Newlines.antt =====
-- `_normalize_newlines` of routes/loom.py.
use acs_base_model_api.Base.{
  ℕ, ◌≡◌, refl, sym, ap, ◌∙◌, false, [], ◌∷◌, arith, nat_eq, nat_beq_iff, ◌==◌, inl, inr,
  Bool-cases, if◌then◌else◌,
}
use acs_base_model_api.Base.Lists.{All}
use acs_base_model_api.Base.Text.{Text}
use acs_base_model_api.Loom.Node.{replace_crlf, replace_cr, normalize_newlines}

-- no carriage return
abbrev pub NoCr : Text → Type 0
NoCr t = All (λ c. (c == 13) ≡ false) t

-- a text as a browser submits it: each line feed becomes a carriage return and a line feed
unfoldable pub submitted : Text → Text
submitted [] = []
submitted (c ∷ t) = if c == 10 then 13 ∷ 10 ∷ submitted t else c ∷ submitted t

replace_cr-NoCr : (t : Text) → NoCr (replace_cr t)
unfolding replace_cr
replace_cr-NoCr [] = tt
replace_cr-NoCr (c ∷ t) = (ground arith, replace_cr-NoCr t)

replace_cr-id : (t : Text) → NoCr t → replace_cr t ≡ t
unfolding replace_cr
replace_cr-id [] h = refl
replace_cr-id (c ∷ t) (h, hs) = rw (h, replace_cr-id t hs) refl

replace_crlf-id : (t : Text) → NoCr t → replace_crlf t ≡ t
unfolding replace_crlf
replace_crlf-id [] h = refl
replace_crlf-id (c ∷ []) h = refl
replace_crlf-id (c ∷ d ∷ t) (h, hs) = rw (h, replace_crlf-id (d ∷ t) hs) refl

crlf-other : (c : ℕ) (t : Text) → (c == 13) ≡ false → replace_crlf (c ∷ t) ≡ c ∷ replace_crlf t
unfolding replace_crlf
crlf-other c [] h = refl
crlf-other c (d ∷ t) h = rw h refl

crlf-pair : (t : Text) → replace_crlf (13 ∷ 10 ∷ t) ≡ 10 ∷ replace_crlf t
unfolding replace_crlf
crlf-pair t = refl

replace_crlf-submitted : (t : Text) → NoCr t → replace_crlf (submitted t) ≡ t
unfolding replace_crlf submitted
replace_crlf-submitted [] h = refl
replace_crlf-submitted (c ∷ t) (h, hs) = elim (Bool-cases (c == 10)) [
  | inl feed ↦ rw feed (
      ap (λ r. 10 ∷ r) (replace_crlf-submitted t hs)
      ∙ ap (λ n. n ∷ t) (sym ((nat_beq_iff c 10).0 feed)))
  | inr other ↦
      rw other (crlf-other c (submitted t) h ∙ ap (λ r. c ∷ r) (replace_crlf-submitted t hs))
]

-- The normalised text of any text has no carriage return.
pub normalize_newlines-NoCr : (t : Text) → NoCr (normalize_newlines t)
unfolding normalize_newlines
normalize_newlines-NoCr t = replace_cr-NoCr (replace_crlf t)

-- A text with no carriage return is normalised to itself, whether it comes as it is or with each
-- line feed submitted as a carriage return and a line feed.
pub normalize-submitted :
    (t : Text) → NoCr t → (normalize_newlines (submitted t) ≡ t) × (normalize_newlines t ≡ t)
unfolding normalize_newlines
normalize-submitted t h = (
  ap replace_cr (replace_crlf-submitted t h) ∙ replace_cr-id t h,
  ap replace_cr (replace_crlf-id t h) ∙ replace_cr-id t h,
)

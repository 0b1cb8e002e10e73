-- ===== src/BootStage/Tests.antt =====
-- A frame of the progress bar, and a stage that is too old.
use acs_base_model_api.Base.{◌≡◌, refl, none, some, [], ◌∷◌, ◌++◌}
use acs_base_model_api.Base.Lists.{All}
use acs_base_model_api.Base.Text.{Text, codes}
use acs_base_model_api.BootStage.{
  BootStage, waiting_for_gpu, weights_loading, sse_comment, for_cold_wait, interpret, fmt_elapsed,
  digits,
}
use acs_base_model_api.BootStage.Comment.{Inline, sse_comment-Inline}

abbrev loading : BootStage
loading = record { stage = weights_loading; age_s = some 200 }

elapsed_text : fmt_elapsed 272 ≡ codes "4m32s"
unfolding fmt_elapsed digits
elapsed_text = refl

-- loading weights for an hour is an earlier boot
old_stage :
    for_cold_wait 3600000000 (some (record { stage = codes "weights_loading"; ts = some 0 }))
    ≡ record { stage = waiting_for_gpu; age_s = none }
unfolding for_cold_wait interpret
old_stage = refl

sse_comment-Inline_example :
    (text : Text) × ((sse_comment loading 272 ≡ b':' ∷ (text ++ 13 ∷ [])) × All Inline text)
sse_comment-Inline_example = sse_comment-Inline loading 272

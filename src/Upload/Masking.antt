-- ===== src/Upload/Masking.antt =====
-- What a masked secret of internal/upload/upload.go gives away.
use ivault.Common.{◌≡◌, ◌≢◌, refl, ap, sym, ◌∙◌, [], ◌∷◌, ◌++◌}
use ivault.Common.Text.{Text, codes, byte_length}
use ivault.Common.Decimal.{format_uint}
use ivault.Upload.{mask_secret}

by_length :
    (s : Text)
    → s ≢ []
    → mask_secret s ≡ codes "<present, len=" ++ format_uint (byte_length s) ++ codes ">"
unfolding mask_secret
by_length [] p = absurd (p refl)
by_length (b ∷ s) p = refl

-- Two secrets that are present and have as many bytes are masked by the same text: the mask of a
-- secret tells its length and nothing else.
pub mask_secret_blind :
    (s t : Text) → s ≢ [] → t ≢ [] → byte_length s ≡ byte_length t → mask_secret s ≡ mask_secret t
mask_secret_blind [] t p q e = absurd (p refl)
mask_secret_blind (b ∷ s) [] p q e = absurd (q refl)
mask_secret_blind (b ∷ s) (c ∷ t) p q e =
    by_length (b ∷ s) p
    ∙ ap (λ n. codes "<present, len=" ++ format_uint n ++ codes ">") e
    ∙ sym (by_length (c ∷ t) q)

-- ===== src/Upload/Rclone/Redacted.antt =====
-- What the log shows of a destination's password (internal/upload/upload.go, `setupRCloneEnv`).
use mathlib.Core.List.{append_assoc}
use ivault.Common.{◌≡◌, refl, sym, ap, ◌∙◌, List, [], ◌∷◌, ◌++◌, inl, inr, Bool-cases}
use ivault.Common.Text.{Text, codes, text_eq, has_prefix, cut}
use ivault.Upload.{Destination}
use ivault.Upload.Rclone.{
  env_pair, env_unless_empty, or_else, login_env, drive_env, rclone_env, is_secret, env_line,
  logged_env,
}

logged_env-append : (xs ys : List Text) → logged_env (xs ++ ys) ≡ logged_env xs ++ logged_env ys
unfolding logged_env
logged_env-append [] ys = refl
logged_env-append (e ∷ es) ys = elim (Bool-cases (has_prefix e (codes "RCLONE_CONFIG_"))) [
  | inl h ↦ rw h (
      ap (λ r. env_line (cut e b'=') ++ r) (logged_env-append es ys)
      ∙ sym (append_assoc (env_line (cut e b'=')) (logged_env es) (logged_env ys)))
  | inr h ↦ rw h (logged_env-append es ys)
]

-- Environments that are logged alike, followed by the same entries, are logged alike.
logged_then :
    (xs ys zs : List Text)
    → logged_env xs ≡ logged_env ys
    → logged_env (xs ++ zs) ≡ logged_env (ys ++ zs)
logged_then xs ys zs h =
    logged_env-append xs zs ∙ ap (λ r. r ++ logged_env zs) h ∙ sym (logged_env-append ys zs)

logged_after :
    (zs xs ys : List Text)
    → logged_env xs ≡ logged_env ys
    → logged_env (zs ++ xs) ≡ logged_env (zs ++ ys)
logged_after zs xs ys h =
    logged_env-append zs xs ∙ ap (λ r. logged_env zs ++ r) h ∙ sym (logged_env-append zs ys)

logged_pass :
    (p q : Text) → logged_env (env_pair (codes "PASS") p) ≡ logged_env (env_pair (codes "PASS") q)
unfolding logged_env env_pair cut has_prefix is_secret
logged_pass p q = refl

logged_token :
    (p q : Text) → logged_env (env_pair (codes "TOKEN") p) ≡ logged_env (env_pair (codes "TOKEN") q)
unfolding logged_env env_pair cut has_prefix is_secret
logged_token p q = refl

module _ (obscure getenv : Text → Text) (t : Destination) (q : Text) where
  logged_login :
      (kind : Text)
      → logged_env (login_env obscure getenv kind t)
        ≡ logged_env (login_env obscure getenv kind (record t { password = q }))
  unfolding login_env
  logged_login kind =
      logged_after
        (env_pair (codes "TYPE") kind
          ++ env_pair (codes "HOST") t.host
          ++ env_pair (codes "USER") t.username)
        (env_pair (codes "PASS") (obscure t.password)) (env_pair (codes "PASS") (obscure q))
        (logged_pass (obscure t.password) (obscure q))

  logged_drive :
      logged_env (drive_env obscure getenv t)
      ≡ logged_env (drive_env obscure getenv (record t { password = q }))
  unfolding drive_env
  logged_drive =
      let token : Text → Text = λ s.
        codes "{\"access_token\":\"\",\"token_type\":\"Bearer\",\"refresh_token\":\""
        ++ s
        ++ codes "\",\"expiry\":\"0001-01-01T00:00:00Z\"}" in
      let before =
        env_pair (codes "TYPE") (codes "drive")
        ++ env_pair (codes "SCOPE") (codes "drive.file")
        ++ env_unless_empty (codes "CLIENT_ID")
            (or_else t.client_id (getenv (codes "GOOGLE_CLIENT_ID")))
        ++ env_unless_empty (codes "CLIENT_SECRET")
            (or_else t.client_secret (getenv (codes "GOOGLE_CLIENT_SECRET"))) in
      logged_then (before ++ env_pair (codes "TOKEN") (token t.password))
        (before ++ env_pair (codes "TOKEN") (token q))
        (env_pair (codes "ROOT_FOLDER_ID") t.subfolder)
        (logged_after before (env_pair (codes "TOKEN") (token t.password))
          (env_pair (codes "TOKEN") (token q)) (logged_token (token t.password) (token q)))

-- The logged lines of rclone's environment do not depend on the destination's password, which is
-- the refresh token of a Google Drive.
pub logged_env-rclone_env :
    (obscure getenv : Text → Text) (t : Destination) (q : Text)
    → logged_env (rclone_env obscure getenv t)
      ≡ logged_env (rclone_env obscure getenv (record t { password = q }))
unfolding rclone_env
logged_env-rclone_env obscure getenv t q = elim (Bool-cases (text_eq t.type (codes "smb"))) [
  | inl e ↦ simp e (
      logged_then (login_env obscure getenv (codes "smb") t)
        (login_env obscure getenv (codes "smb") (record t { password = q }))
        (env_unless_empty (codes "DOMAIN") t.domain)
        (logged_login obscure getenv t q (codes "smb")))
  | inr e ↦ elim (Bool-cases (text_eq t.type (codes "sftp"))) [
    | inl f ↦ simp (e, f) (logged_login obscure getenv t q (codes "sftp"))
    | inr f ↦ elim (Bool-cases (text_eq t.type (codes "google_drive"))) [
      | inl g ↦ simp (e, f, g) (logged_drive obscure getenv t q)
      | inr g ↦ simp (e, f, g) refl
    ]
  ]
]

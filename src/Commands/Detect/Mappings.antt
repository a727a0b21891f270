-- ===== src/Commands/Detect/Mappings.antt =====
-- internal/commands/executor.go: the mappings of .lemuria.yaml that name an application.
use lemuria.Prelude.{
  Text, Bool, true, false, ◌&&◌, ◌||◌, ◌==◌, List, [], ◌∷◌, ◌≡◌, refl, ap, ◌∙◌, some, inl, inr,
  Bool-cases, eq_iff, arith, Option,
}
use lemuria.Model.Application.{Application}
use lemuria.Services.Config.{RepoConfig, ApplicationMapping}
use lemuria.Commands.Sync.Requirements.{match_app_name, is_pattern_match}
use lemuria.Commands.Detect.Match.{
  touches, handles, any_handled, any_touched, match_by_repo_config, is_app_affected,
}

-- Some mapping has the name, and some mapping of the name is touched.
abbrev pub any_named : Text → List ApplicationMapping → Bool
any_named app [] = false
any_named app (m ∷ ms) = m.name == app || any_named app ms

abbrev pub any_named_touched : Text → List Text → List ApplicationMapping → Bool
any_named_touched app files [] = false
any_named_touched app files (m ∷ ms) =
    (m.name == app && touches files m) || any_named_touched app files ms

module _ (match_string : Text → Text → Option Bool) (quote_meta to_lower : Text → Text) where
  abbrev matches : Text → Text → Bool
  matches = match_app_name match_string quote_meta

  handles-named :
      (app : Text) (m : ApplicationMapping)
      → is_pattern_match app ≡ false
      → handles matches false app m ≡ (m.name == app)
  unfolding match_app_name
  handles-named app m plain = elim (Bool-cases (m.name == app)) [
    | inl e ↦ let q = ap is_pattern_match ((eq_iff m.name app).0 e) ∙ plain in ground (arith, e, q)
    | inr e ↦ elim (Bool-cases (is_pattern_match m.name)) [
      | inl p ↦ ground (arith, e, p)
      | inr p ↦ unfold is_pattern_match in ground (arith, e, p)
    ]
  ]

  any_handled-named :
      (app : Text) (ms : List ApplicationMapping)
      → is_pattern_match app ≡ false
      → any_handled matches false app ms ≡ any_named app ms
  any_handled-named app [] plain = refl
  any_handled-named app (m ∷ ms) plain =
      ground (arith, handles-named app m plain, any_handled-named app ms plain)

  any_touched-named :
      (app : Text) (files : List Text) (ms : List ApplicationMapping)
      → is_pattern_match app ≡ false
      → any_touched matches false app files ms ≡ any_named_touched app files ms
  any_touched-named app files [] plain = refl
  any_touched-named app files (m ∷ ms) plain =
      ground (arith, handles-named app m plain, any_touched-named app files ms plain)

  -- Where a mapping has the name of the application, and that name is no pattern, the mappings of the
  -- name decide alone whether the application is affected: neither a pattern nor its sources count.
  pub is_app_affected-named :
      (app : Application) (repo_url : Text) (files : List Text) (config : RepoConfig)
      → is_pattern_match app.name ≡ false
      → any_named app.name config.applications ≡ true
      → is_app_affected match_string quote_meta to_lower app repo_url files (some config)
        ≡ any_named_touched app.name files config.applications
  unfolding is_app_affected match_by_repo_config
  is_app_affected-named app repo_url files config plain named =
      let p = any_touched-named app.name files config.applications plain in
      let q = any_handled-named app.name config.applications plain ∙ named in
      elim (Bool-cases (any_named_touched app.name files config.applications)) [
        | inl e ↦ ground (arith, p, q, e)
        | inr e ↦ ground (arith, p, q, e)
      ]

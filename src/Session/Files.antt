-- ===== src/Session/Files.antt =====
-- The files that `Save` of pkg/session/manager.go writes.
use operator_os.Base.{
  ℕ, ◌≡◌, refl, sym, ap, ◌∙◌, true, false, ◌||◌, some, [], ◌∷◌, ◌++◌, Text, codes, is_empty, lookup,
  arith,
}
use operator_os.Session.Manager.{
  Session, SessionManager, sanitize_filename, valid_filename, has_byte, write_file, save,
}

has_byte-append : (b : ℕ) (s t : Text) → has_byte b (s ++ t) ≡ (has_byte b s || has_byte b t)
has_byte-append b [] t = refl
has_byte-append b (c ∷ s) t = ground (arith, has_byte-append b s t)

no_colon : (k : Text) → has_byte b':' (sanitize_filename k) ≡ false
unfolding sanitize_filename
no_colon [] = refl
no_colon (c ∷ k) = ground (arith, no_colon k)

valid_plain :
    (f : Text)
    → valid_filename f ≡ true
    → (has_byte b'/' f ≡ false) × (has_byte 92 f ≡ false) × (is_empty f ≡ false)
unfolding valid_filename
valid_plain f h = ground arith

suffixed :
    (b : ℕ) (f : Text)
    → has_byte b f ≡ false
    → has_byte b (codes ".json") ≡ false
    → has_byte b (f ++ codes ".json") ≡ false
suffixed b f h e = ground (arith, has_byte-append b f (codes ".json"))

save_cases :
    (sm : SessionManager) (k name : Text) (s : Session)
    → save sm k ≡ write_file name s
    → (lookup k sm.sessions ≡ some s)
      × (name ≡ sanitize_filename k ++ codes ".json")
      × (valid_filename (sanitize_filename k) ≡ true)
unfolding save
save_cases sm k name s h = ground arith

-- When `Save` writes a file, the file holds the session of the key, and its name is the sanitized
-- key and ".json", with no slash, no backslash and no colon in it.
pub save_inside :
    (sm : SessionManager) (k name : Text) (s : Session)
    → save sm k ≡ write_file name s
    → (lookup k sm.sessions ≡ some s)
      × (name ≡ sanitize_filename k ++ codes ".json")
      × (has_byte b'/' name ≡ false)
      × (has_byte 92 name ≡ false)
      × (has_byte b':' name ≡ false)
save_inside sm k name s h =
    let (found, e, v) = save_cases sm k name s h in
    let (slash, back, full) = valid_plain (sanitize_filename k) v in
    (
      found,
      e,
      ap (has_byte b'/') e ∙ suffixed b'/' (sanitize_filename k) slash refl,
      ap (has_byte 92) e ∙ suffixed 92 (sanitize_filename k) back refl,
      ap (has_byte b':') e ∙ suffixed b':' (sanitize_filename k) (no_colon k) refl,
    )

goes_through :
    (sm : SessionManager) (k : Text) (s : Session)
    → is_empty sm.storage ≡ false
    → valid_filename (sanitize_filename k) ≡ true
    → lookup k sm.sessions ≡ some s
    → save sm k ≡ write_file (sanitize_filename k ++ codes ".json") s
unfolding save
goes_through sm k s a b d = rw (a, save) (rw b (rw d refl))

-- Two keys that are sanitized to one name, such as "a:b" and "a_b", are saved to one file: each
-- save replaces the session of the other.
pub save_collision :
    (sm : SessionManager) (k j : Text) (s t : Session)
    → is_empty sm.storage ≡ false
    → valid_filename (sanitize_filename k) ≡ true
    → sanitize_filename k ≡ sanitize_filename j
    → lookup k sm.sessions ≡ some s
    → lookup j sm.sessions ≡ some t
    → (name : Text) × (save sm k ≡ write_file name s) × (save sm j ≡ write_file name t)
save_collision sm k j s t a b c d e = (
  sanitize_filename k ++ codes ".json",
  goes_through sm k s a b d,
  goes_through sm j t a (sym (ap valid_filename c) ∙ b) e
      ∙ ap (λ f. write_file (f ++ codes ".json") t) (sym c),
)

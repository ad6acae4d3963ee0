-- ===== src/Providers/ModelRef.antt =====
-- pkg/providers/model_ref.go.
use operator_os.Base.{
  ◌≡◌, refl, ◌||◌, Option, none, some, [], ◌∷◌, ◌++◌, Text, codes, text_eq, is_empty, to_lower,
  trim_space, cut, if◌then◌else◌,
}

pub record ModelRef : Type 0 where
  pub provider : Text
  pub model : Text

-- The `switch` on the trimmed, lower-cased name.
unfoldable pub canonical_provider : Text → Text
canonical_provider p =
    if text_eq p (codes "z.ai") || text_eq p (codes "z-ai")
    then codes "zai"
    else if text_eq p (codes "opencode-zen")
    then codes "opencode"
    else if text_eq p (codes "qwen")
    then codes "qwen-portal"
    else if text_eq p (codes "kimi-code")
    then codes "kimi-coding"
    else if text_eq p (codes "gpt")
    then codes "openai"
    else if text_eq p (codes "claude")
    then codes "anthropic"
    else if text_eq p (codes "glm")
    then codes "zhipu"
    else if text_eq p (codes "google")
    then codes "gemini"
    else p

unfoldable pub normalize_provider : Text → Text
unfolding canonical_provider
normalize_provider provider = canonical_provider (to_lower (trim_space provider))

-- `some ([], _)` is a slash at index 0, where the source's `idx > 0` fails.
unfoldable pub parse_model_ref : Text → Text → Option ModelRef
parse_model_ref raw default_provider =
    let raw' = trim_space raw in
    if is_empty raw' then none else elim (cut b'/' raw') [
      | none ↦ some (record { provider = normalize_provider default_provider; model = raw' })
      | some ([], rest) ↦
          some (record { provider = normalize_provider default_provider; model = raw' })
      | some (c ∷ before, rest) ↦
          let m = trim_space rest in
          if is_empty m
          then none
          else some (record { provider = normalize_provider (c ∷ before); model = m })
    ]

unfoldable pub model_key : Text → Text → Text
model_key provider model = normalize_provider provider ++ codes "/" ++ to_lower (trim_space model)

parse_claude :
    parse_model_ref (codes " Claude/opus ") (codes "x")
    ≡ some (record { provider = codes "anthropic"; model = codes "opus" })
unfolding parse_model_ref normalize_provider cut trim_space to_lower text_eq
parse_claude = refl

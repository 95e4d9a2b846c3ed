-- ===== src/Ai/Fence.antt =====
-- stripCodeFence, which internal/ai/extractor/extractor.go and internal/ai/verifier/verifier.go both
-- have.
use coeus.Prelude.{String, code, Option, none, some, trim_space, has_prefix, ◌==◌, if◌then◌else◌}
use Prim.Native.String.{[], ◌∷◌}

-- s[nl+1:] of strings.IndexByte(s, '\n')
unfoldable pub after_newline : String → Option String
after_newline [] = none
after_newline (c ∷ s) = let rest = after_newline s in if code c == 10 then some s else rest

-- s[:idx] of strings.LastIndex(s, fence)
abbrev fence : String
fence = "```"

unfoldable pub before_last_fence : String → Option String
before_last_fence [] = none
before_last_fence (c ∷ s) = elim (before_last_fence s) [
  | some p ↦ some (c ∷ p)
  | none ↦ if has_prefix (c ∷ s) fence then some [] else none
]

abbrev close_fence : String → Option String → String
close_fence s none = s
close_fence s (some p) = trim_space p

-- The text behind the line that opens the fence
abbrev inside : String → Option String → String
inside s none = s
inside s (some body) = close_fence (trim_space body) (before_last_fence (trim_space body))

unfoldable pub strip_code_fence : String → String
unfolding after_newline before_last_fence trim_space has_prefix
strip_code_fence s =
    let t = trim_space s in if has_prefix t fence then inside t (after_newline t) else t

-- ===== src/Slug/Tests.antt =====
-- Runs of internal/slug and instances of its theorems.
use go_clipboard.Base.{◌≡◌, refl, ◌↔◌, none, some, ascii, ◌==◌}
use go_clipboard.Slug.{
  in_class, match_pattern, is_reserved, validate, bad_length, bad_charset, reserved_name,
}
use go_clipboard.Slug.Rules.{IsSlug, validate-none_iff}

program : Unit {0}
unfolding validate match_pattern in_class is_reserved ◌==◌
program = tt

accepts : validate (ascii "Demo_clip-1") ≡ none
unfolding program
accepts = refl

too_short : validate (ascii "ab") ≡ some bad_length
unfolding program
too_short = refl

with_space : validate (ascii "a b") ≡ some bad_charset
unfolding program
with_space = refl

taken_name : validate (ascii "status") ≡ some reserved_name
unfolding program
taken_name = refl

-- Reservation is case-sensitive.
capital : validate (ascii "Status") ≡ none
unfolding program
capital = refl

validate-none_iff_example : (validate (ascii "demo-clip") ≡ none) ↔ IsSlug (ascii "demo-clip")
validate-none_iff_example = validate-none_iff (ascii "demo-clip")

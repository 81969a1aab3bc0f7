-- ===== src/Examples/Paths.antt =====
-- Paths whose percent signs are escaped.
use beanstream.Prelude.{◌≡◌, refl, inl, true, false, arith}
use beanstream.Text.{Str, codes}
use beanstream.UrlValidation.Path.{
  decode_rounds, candidate_is_dangerous, path_has_dangerous_sequence,
}
use beanstream.UrlValidation.Path.Escaped.{escaped_times, path_has_dangerous_sequence-escaped_times}

abbrev hidden : Str
hidden = codes "/%2e%2e"

found : candidate_is_dangerous (decode_rounds 2 hidden) ≡ true
unfolding candidate_is_dangerous decode_rounds beanstream.Text.contains
    beanstream.Text.to_ascii_lowercase beanstream.UrlValidation.Path.decode_round
    beanstream.Text.utf8 beanstream.Text.from_utf8_lossy beanstream.Text.starts_with
    beanstream.Text.strip_prefix beanstream.Text.lower_char
found = refl

path_has_dangerous_sequence-escaped_times_example :
    path_has_dangerous_sequence (codes "/%2525252e%2525252e") ≡ true
path_has_dangerous_sequence-escaped_times_example =
    path_has_dangerous_sequence-escaped_times 3 2 hidden refl
      (
        inl (omega arith),
        (
          inl (omega arith),
          (
            inl (omega arith),
            (inl (omega arith), (inl (omega arith), (inl (omega arith), (inl (omega arith), tt)))),
          ),
        ),
      )
      found

-- Six escapes are one too many: the path passes.
too_deep : path_has_dangerous_sequence (escaped_times 6 hidden) ≡ false
unfolding path_has_dangerous_sequence beanstream.Text.contains beanstream.Text.to_ascii_lowercase
    beanstream.Text.starts_with beanstream.Text.strip_prefix beanstream.Text.lower_char
    beanstream.Text.utf8 beanstream.Text.from_utf8_lossy
too_deep = refl

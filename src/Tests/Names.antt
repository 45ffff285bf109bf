-- ===== src/Tests/Names.antt =====
-- `SanitizeName` at some emails.
use kube_argus.Base.{◌≡◌, refl, runes, arith, text_of}
use kube_argus.K8s.SanitizeName.{
  to_lower, write_rune, trim_left, trim_right, trim, fit, or_user, sanitize, sanitize_name,
}
use kube_argus.K8s.SanitizeName.Dns.{IsDnsName, sanitize_name-IsDnsName}
use kube_argus.K8s.SanitizeName.Kept.{sanitize_name_kept}

sanitize_name-IsDnsName_example : IsDnsName (runes (sanitize_name "Ann.Lee@example.com"))
sanitize_name-IsDnsName_example = sanitize_name-IsDnsName "Ann.Lee@example.com"

lower_case : sanitize_name "Ann.Lee@example.com" ≡ "ann-lee-example-com"
unfolding to_lower write_rune trim_left trim_right trim fit or_user sanitize sanitize_name text_of
lower_case = refl

sanitize_name_kept_example : sanitize_name "ann-lee" ≡ "ann-lee"
sanitize_name_kept_example = sanitize_name_kept "ann-lee" (record {
  nonempty = refl;
  short = omega arith;
  allowed = ground arith;
  begins = refl;
  ends = refl;
})

-- Two emails, one name.
shared_name : sanitize_name "a.b@x" ≡ sanitize_name "a-b@x"
unfolding to_lower write_rune trim_left trim_right trim fit or_user sanitize sanitize_name text_of
shared_name = refl

-- ===== src/Tests/Lines.antt =====
-- Request lines and comma-separated lists, as the protocol has them.
use zelto_os.Prelude.{◌≡◌, refl, List, [], ◌∷◌, some, arith}
use zelto_os.Prelude.Slots.{any}
use zelto_os.Text.{Bytes, codes, eqb, clip}
use zelto_os.Zsysd.Csv.{csv_contains, share_target_matches, accepts}
use zelto_os.Zsysd.Csv.Split.{split_commas, trim, csv_contains-split, share_target_matches-split}
use zelto_os.Zsysd.Wire.{json_get}
use zelto_os.Zsysd.Wire.Fields.{
  Field, IsPlain, IsKey, request, lookup, clipped, json_get-request, json_get_misread,
}
use zelto_os.Tests.Data.{pair, camera}

abbrev perms : Bytes
perms = codes "camera, notifications"

csv_contains-split_example :
    csv_contains perms camera ≡ any (λ e. eqb (trim e) camera) (split_commas perms)
csv_contains-split_example = csv_contains-split perms camera (unfold eqb in refl)

share_target_matches-split_example :
    share_target_matches (codes "image/*, text/plain") (codes "image/png")
    ≡ any (λ e. accepts (codes "image/png") (trim e)) (split_commas (codes "image/*, text/plain"))
share_target_matches-split_example =
    share_target_matches-split (codes "image/*, text/plain") (codes "image/png")

op-IsKey : IsKey (codes "op")
op-IsKey = record {
  free = (refl, (refl, tt));
  fits = omega arith;
  ne_colon = unfold eqb in refl;
  ne_comma = unfold eqb in refl;
}

id-IsPlain : IsPlain (codes "op") (pair (codes "id") (codes "42"))
id-IsPlain = record {
  key_free = (refl, (refl, tt));
  value_free = (refl, (refl, tt));
  value_ne = unfold eqb in refl;
}

op-IsPlain : IsPlain (codes "op") (pair (codes "op") (codes "tap"))
op-IsPlain = record {
  key_free = (refl, (refl, tt));
  value_free = (refl, (refl, (refl, tt)));
  value_ne = unfold eqb in refl;
}

abbrev fields : List Field
fields = pair (codes "id") (codes "42") ∷ pair (codes "op") (codes "tap") ∷ []

json_get-request_example :
    json_get (request fields) (codes "op") 32 ≡ clipped 32 (lookup (codes "op") fields)
json_get-request_example =
    json_get-request (codes "op") op-IsKey 32 fields (id-IsPlain, (op-IsPlain, tt))

json_get_misread_example :
    json_get
      (request (pair (codes "id") (codes "op") ∷ pair (codes "x") (codes "y") ∷ []))
      (codes "op")
      32
    ≡ some (clip 32 (codes "y"))
json_get_misread_example =
    json_get_misread (codes "op") op-IsKey 32 (pair (codes "id") (codes "op"))
      (pair (codes "x") (codes "y")) [] refl (unfold eqb in refl) (refl, (refl, tt)) (refl, tt)
      (refl, tt)

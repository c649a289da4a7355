-- ===== src/AppInfo.antt =====
-- internal/appinfo: the id of an app from its info.xml.
use developer_certificates.Common.{Bytes, [], ◌∷◌, codes}
use developer_certificates.Effects.{Error, errorf, wrap, Result, ok, err}
use developer_certificates.Runtime.{Runtime}
use developer_certificates.Text.{trim_space}

unfoldable pub err_no_id : Error
unfolding errorf codes
err_no_id = errorf (codes "appinfo: info.xml has no <id>")

unfoldable pub non_empty : Bytes → Result Bytes
unfolding err_no_id
non_empty [] = err err_no_id
non_empty (c ∷ s) = ok (c ∷ s)

unfoldable pub extract_id : Runtime → Bytes → Result Bytes
unfolding non_empty trim_space wrap codes
extract_id rt text = elim (rt.xml_info_id text) [
  | err e ↦ err (wrap (codes "appinfo: parse info.xml") e)
  | ok id ↦ non_empty (trim_space id)
]

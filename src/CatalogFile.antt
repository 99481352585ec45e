-- ===== src/CatalogFile.antt =====
-- internal/catalog/file.go: reading the operator's catalog.
use virtual_cloud_help_servi.Prelude.{
  ℕ, Bool, Option, not, ltb, length, Result, reject, or_fail, ◌>>=◌, ◌>>◌,
}
use virtual_cloud_help_servi.Prelude.Text.{Text}
use virtual_cloud_help_servi.Platform.{Platform}
use virtual_cloud_help_servi.Manifest.Types.{Catalog}
use virtual_cloud_help_servi.Manifest.KeyPolicy.{decode_strict}

pub data CatalogFault : Type 0 where
  open_catalog read_catalog catalog_too_big decode_catalog : CatalogFault

abbrev pub max_catalog_bytes : ℕ
max_catalog_bytes = 1_048_576

-- `contents` is none where the file cannot be opened; `readable` says whether reading succeeds.
unfoldable pub load_file : Platform → Option Text → Bool → Result CatalogFault Catalog
load_file p contents readable = do
  data_bytes ← or_fail contents open_catalog
  reject (not readable) read_catalog
  reject (ltb max_catalog_bytes (length data_bytes)) catalog_too_big
  or_fail (decode_strict p.read_catalog p.next_value data_bytes) decode_catalog

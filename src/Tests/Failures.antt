-- ===== src/Tests/Failures.antt =====
-- Runs of the model of pkg/errors.
use ocis_ftp_bridge.Prelude.{◌↔◌, true, codes, ◌≡◌, refl, some, Option, [], ◌∷◌, Bytes}
use ocis_ftp_bridge.Prelude.Map.{Map, lookup, insert, delete, bytes_eq}
use ocis_ftp_bridge.Errors.{
  io, Error, app_over, plain, wrapped, errors_is, new, wrap_error, find_app, write_all,
  with_entries, with_details,
}
use ocis_ftp_bridge.Errors.Chain.{Finds, errors_is-Finds_iff}

-- A missing file, an I/O error around it, and a text around that.
abbrev failure : Error
failure =
    wrapped 2 (codes "store: x") (wrap_error io (codes "write") (some (plain 1 (codes "missing"))))

abbrev changed : Error
changed =
    app_over
      (record {
        code = io;
        message = codes "write";
        details = some ((codes "path", codes "/a") ∷ []);
      })
      (plain 1 (codes "missing"))

errors_is_example :
    (errors_is failure (new io (codes "other")) ≡ true) ↔ Finds (new io (codes "other")) failure
errors_is_example = errors_is-Finds_iff failure (new io (codes "other"))

abbrev details : Option (Map Bytes Bytes)
details = some ((codes "path", codes "/a") ∷ [])

is_changed : with_details (some failure) details ≡ some (some changed)
unfolding with_details with_entries write_all wrap_error new find_app lookup insert delete
is_changed = refl

-- ===== src/Spool/Tests.antt =====
-- Names of spool files, and the theorems there.
use weave_graph.Common.{codes, [], ◌∷◌, true, false, some, none, ◌≡◌, refl, arith}
use weave_graph.Spool.{
  is_safe_path_component, decode_hex, job_stem, job_filename, parse_job_filename,
}
use weave_graph.Spool.Jobs.{parse_job_filename-job_stem}

names :
    (is_safe_path_component (codes "v1.2_rc-3") ≡ true)
    × (is_safe_path_component (codes "..") ≡ false)
    × (is_safe_path_component (codes "a/b") ≡ false)
    × (decode_hex (codes "00fF10") ≡ some (0 ∷ 255 ∷ 16 ∷ []))
    × (decode_hex (codes "+a") ≡ some (10 ∷ []))
    × (decode_hex (codes "abc") ≡ none)
    × (job_filename 7 (codes "a_b") 12 ≡ codes "00000000000000000007_a_b_12.tar.zst")
    × (parse_job_filename (codes "00000000000000000007_a_b_12") ≡ some (7, codes "a_b", 12))
unfolding is_safe_path_component decode_hex job_filename parse_job_filename
names = (refl, refl, refl, refl, refl, refl, refl, refl)

parse_job_filename-job_stem_example :
    parse_job_filename (job_stem 7 (codes "a_b") 12) ≡ some (7, codes "a_b", 12)
parse_job_filename-job_stem_example =
    parse_job_filename-job_stem 7 12 (codes "a_b") (omega arith) (omega arith)

-- ===== src/Algo/Stats.antt =====
-- `DiffStats` of analytics.go, and how numbers are printed. Its sizes and times are not negative.
use nix_sandwich.Prelude.{ℕ, suc, [], ◌∷◌, ◌++◌, Option, none, some, Bytes, codes}
use nix_sandwich.Prelude.Decimal.{itoa}
use nix_sandwich.Algo.Atoi.{ℤ, pos, negsuc}

pub record DiffStats : Type 0 where
  pub base_size : ℕ
  pub diff_size : ℕ
  pub nar_size : ℕ
  pub algo : Bytes
  pub level : ℤ
  pub cmp_total_ms : ℕ
  pub exp_total_ms : ℕ
  pub cmp_user_ms : ℕ
  pub cmp_sys_ms : ℕ
  pub exp_user_ms : ℕ
  pub exp_sys_ms : ℕ

-- `&DiffStats{}`
abbrev pub no_stats : DiffStats
no_stats = record {
  base_size = 0;
  diff_size = 0;
  nar_size = 0;
  algo = [];
  level = pos 0;
  cmp_total_ms = 0;
  exp_total_ms = 0;
  cmp_user_ms = 0;
  cmp_sys_ms = 0;
  exp_user_ms = 0;
  exp_sys_ms = 0;
}

-- `nonnil`
abbrev pub nonnil : Option DiffStats → DiffStats
nonnil none = no_stats
nonnil (some d) = d

-- `%d`
unfoldable pub print_int : ℤ → Bytes
print_int (pos n) = itoa n
print_int (negsuc n) = b'-' ∷ itoa (suc n)

-- `String`
unfoldable pub stats_string : Option DiffStats → Bytes
unfolding print_int
stats_string none = []
stats_string (some d) =
    d.algo
    ++ (b'-'
        ∷ (print_int d.level
            ++ (b' '
                ∷ (itoa d.base_size
                    ++ (b'/'
                        ∷ (itoa d.nar_size
                            ++ (codes " -> "
                                ++ (itoa d.diff_size
                                    ++ (codes " [cmp "
                                        ++ (itoa d.cmp_total_ms
                                            ++ (codes "t "
                                                ++ (itoa d.cmp_user_ms
                                                    ++ (codes "u "
                                                        ++ (itoa d.cmp_sys_ms
                                                            ++ (codes "s exp "
                                                            ++ (itoa d.exp_total_ms
                                                            ++ (codes "t "
                                                            ++ (itoa d.exp_user_ms
                                                            ++ (codes "u "
                                                            ++ (itoa d.exp_sys_ms
                                                            ++ codes "s]"))))))))))))))))))))

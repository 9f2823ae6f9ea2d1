-- ===== src/Telemetry/Metrics/Text.antt =====
-- src/telemetry/metrics.cpp: what a scraper reads in the text for Prometheus.
use minerby.Base.{
  ℕ, ◌==◌, Bytes, List, [], ◌∷◌, ◌++◌, codes, All, Lacks, has, has-Lacks, if_either, All-append,
  false, Option, none, some, ◌≡◌, refl, ap, ◌∙◌, if◌then◌else◌,
}
use minerby.Util.Decimal.{to_string, to_string-Lacks, number_from, number_from-to_string}
use minerby.Pow.Doubles.{Doubles}
use minerby.Telemetry.Metrics.{
  Metrics, Snapshot, advance, snapshot, unlines, prometheus_lines, prometheus,
}

-- The lines of a text; what follows the last line end is dropped.
abbrev pub push : ℕ → List Bytes → List Bytes
push c [] = []
push c (line ∷ lines) = (c ∷ line) ∷ lines

abbrev pub lines_of : Bytes → List Bytes
lines_of [] = []
lines_of (c ∷ s) = if c == b'\n' then [] ∷ lines_of s else push c (lines_of s)

-- The number behind a prefix, in the first line that has it.
abbrev pub strip : Bytes → Bytes → Option Bytes
strip [] s = some s
strip (p ∷ prefix) [] = none
strip (p ∷ prefix) (c ∷ s) = if p == c then strip prefix s else none

abbrev pub sample : Bytes → List Bytes → Option ℕ
sample prefix [] = none
sample prefix (line ∷ lines) = elim (strip prefix line) [
  | none ↦ sample prefix lines
  | some value ↦ some (number_from 0 value)
]

abbrev pub NoNewline : Bytes → Type 0
NoNewline = Lacks b'\n'

lines_of-line :
    (line rest : Bytes) → NoNewline line → lines_of (line ++ b'\n' ∷ rest) ≡ line ∷ lines_of rest
lines_of-line [] rest h = refl
lines_of-line (c ∷ line) rest h = rw (h.0, lines_of-line line rest h.1) refl

lines_of-unlines : (lines : List Bytes) → All NoNewline lines → lines_of (unlines lines) ≡ lines
lines_of-unlines [] h = refl
lines_of-unlines (line ∷ lines) h =
    lines_of-line line (unlines lines) h.0 ∙ ap (◌∷◌ line) (lines_of-unlines lines h.1)

-- A literal, and a literal before a value.
literal : (s : Bytes) → has b'\n' s ≡ false → NoNewline s
literal = has-Lacks b'\n'

labelled : (s value : Bytes) → has b'\n' s ≡ false → NoNewline value → NoNewline (s ++ value)
labelled s value h h' = All-append _ s value (literal s h) h'

counted : (s : Bytes) (n : ℕ) → has b'\n' s ≡ false → NoNewline (s ++ to_string n)
counted s n h = labelled s (to_string n) h (to_string-Lacks b'\n' n refl)

module _ (D : Doubles) (show : D.Double → Bytes) where
  lines-NoNewline :
      (s : Snapshot D.Double)
      → ((x : D.Double) → NoNewline (show x))
      → All NoNewline (prometheus_lines D show s)
  lines-NoNewline s h = (
    literal (codes "# HELP minerby_hashrate Current hashrate in hashes per second") refl,
    (
      literal (codes "# TYPE minerby_hashrate gauge") refl,
      (
        labelled (codes "minerby_hashrate ") (show s.hashrate) refl (h s.hashrate),
        (
          literal (codes "# HELP minerby_hashes_total Cumulative hashes computed") refl,
          (
            literal (codes "# TYPE minerby_hashes_total counter") refl,
            (
              counted (codes "minerby_hashes_total ") s.hashes refl,
              (
                literal (codes "# HELP minerby_shares_accepted_total Accepted shares") refl,
                (
                  literal (codes "# TYPE minerby_shares_accepted_total counter") refl,
                  (
                    counted (codes "minerby_shares_accepted_total ") s.accepted refl,
                    (
                      literal (codes "# HELP minerby_shares_rejected_total Rejected shares") refl,
                      (
                        literal (codes "# TYPE minerby_shares_rejected_total counter") refl,
                        (
                          counted (codes "minerby_shares_rejected_total ") s.rejected refl,
                          (
                            literal (codes "# HELP minerby_difficulty Current share difficulty")
                                refl,
                            (
                              literal (codes "# TYPE minerby_difficulty gauge") refl,
                              (
                                labelled (codes "minerby_difficulty ") (show s.difficulty) refl
                                    (h s.difficulty),
                                (
                                  literal (codes "# HELP minerby_uptime_seconds Process uptime")
                                      refl,
                                  (
                                    literal (codes "# TYPE minerby_uptime_seconds gauge") refl,
                                    (
                                      labelled (codes "minerby_uptime_seconds ") (show s.uptime_s)
                                          refl (h s.uptime_s),
                                      tt,
                                    ),
                                  ),
                                ),
                              ),
                            ),
                          ),
                        ),
                      ),
                    ),
                  ),
                ),
              ),
            ),
          ),
        ),
      ),
    ),
  )

  -- A scraper that splits the text into lines and reads the number behind a name.
  abbrev pub scraped : Bytes → Bytes → Option ℕ
  scraped name text = sample (name ++ codes " ") (lines_of text)

  scraped-unlines :
      (name : Bytes) (s : Snapshot D.Double)
      → ((x : D.Double) → NoNewline (show x))
      → scraped name (unlines (prometheus_lines D show s))
        ≡ sample (name ++ codes " ") (prometheus_lines D show s)
  scraped-unlines name s h =
      ap (sample (name ++ codes " "))
        (lines_of-unlines (prometheus_lines D show s) (lines-NoNewline s h))

  advance-counts :
      (now : ℕ) (m : Metrics D.Double)
      → ((advance D now m).hashes ≡ m.hashes)
        × ((advance D now m).accepted ≡ m.accepted)
        × ((advance D now m).rejected ≡ m.rejected)
  unfolding advance
  advance-counts now m =
      if_either {A = Metrics D.Double}
        (λ n. (n.hashes ≡ m.hashes) × (n.accepted ≡ m.accepted) × (n.rejected ≡ m.rejected)) _
        (refl, refl, refl) (refl, refl, refl)

  -- Where the printed text of a `double` is one line: a scraper reads in the text the counts that the
  -- metrics have, and making the text changes none of them.
  pub prometheus-scraped :
      (now : ℕ) (m : Metrics D.Double)
      → ((x : D.Double) → NoNewline (show x))
      → let (n, text) = prometheus D show now m in
        (scraped (codes "minerby_hashes_total") text ≡ some m.hashes)
        × (scraped (codes "minerby_shares_accepted_total") text ≡ some m.accepted)
        × (scraped (codes "minerby_shares_rejected_total") text ≡ some m.rejected)
        × (n.hashes ≡ m.hashes)
        × (n.accepted ≡ m.accepted)
        × (n.rejected ≡ m.rejected)
  unfolding prometheus snapshot
  prometheus-scraped now m h =
      let (n, s) = snapshot D now m in
      let kept = advance-counts now m in
      (
        scraped-unlines (codes "minerby_hashes_total") s h
            ∙ ap some (number_from-to_string s.hashes ∙ kept.0),
        scraped-unlines (codes "minerby_shares_accepted_total") s h
            ∙ ap some (number_from-to_string s.accepted ∙ kept.1),
        scraped-unlines (codes "minerby_shares_rejected_total") s h
            ∙ ap some (number_from-to_string s.rejected ∙ kept.2),
        kept.0,
        kept.1,
        kept.2,
      )

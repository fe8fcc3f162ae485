-- ===== src/Manager/CommandLine/Defaults.antt =====
-- What the command line has to say before HTTP/2 is served, or metrics are served without protection.
use opensearch_dataprepper_k.Common.{String, ◌≡◌, refl, subst, false, true, Option, List, All}
use opensearch_dataprepper_k.Manager.Flags.{Options, defaults, variables}
use opensearch_dataprepper_k.Manager.CommandLine.{LibraryFlag, ready, parse, parsed}
use opensearch_dataprepper_k.Manager.CommandLine.Untouched.{
  Avoids, OthersKeep, ParsedKeeps, parse_loop-Keeps,
}

http2_apart : OthersKeep (λ o. o.enable_http2) "enable-http2" variables
http2_apart = (
  (λ _. λ v o. refl),
  (
    (λ _. λ v o. refl),
    (
      (λ _. λ v o. refl),
      (
        (λ _. λ v o. refl),
        (
          (λ _. λ v o. refl),
          (
            (λ _. λ v o. refl),
            (
              (λ _. λ v o. refl),
              (
                (λ _. λ v o. refl),
                ((λ _. λ v o. refl), ((λ _. λ v o. refl), ((λ ne. absurd (ne refl)), tt))),
              ),
            ),
          ),
        ),
      ),
    ),
  ),
)

secure_apart : OthersKeep (λ o. o.secure_metrics) "metrics-secure" variables
secure_apart = (
  (λ _. λ v o. refl),
  (
    (λ _. λ v o. refl),
    (
      (λ _. λ v o. refl),
      (
        (λ ne. absurd (ne refl)),
        (
          (λ _. λ v o. refl),
          (
            (λ _. λ v o. refl),
            (
              (λ _. λ v o. refl),
              (
                (λ _. λ v o. refl),
                ((λ _. λ v o. refl), ((λ _. λ v o. refl), ((λ _. λ v o. refl), tt))),
              ),
            ),
          ),
        ),
      ),
    ),
  ),
)

module _ (library : String → Option LibraryFlag) (args : List String) (o : Options) where
  pub parse-http2 :
      All (Avoids "enable-http2") args → parse library args ≡ parsed o → o.enable_http2 ≡ false
  unfolding parse
  parse-http2 avoids given =
      subst (ParsedKeeps (λ o. o.enable_http2) defaults) given
        (parse_loop-Keeps _ library "enable-http2" http2_apart ready args defaults tt avoids)

  pub parse-secure :
      All (Avoids "metrics-secure") args → parse library args ≡ parsed o → o.secure_metrics ≡ true
  unfolding parse
  parse-secure avoids given =
      subst (ParsedKeeps (λ o. o.secure_metrics) defaults) given
        (parse_loop-Keeps _ library "metrics-secure" secure_apart ready args defaults tt avoids)

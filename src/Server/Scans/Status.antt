-- ===== src/Server/Scans/Status.antt =====
-- What performScan of cmd/server/main.go records of a scan, and the status that it gives to agents.
use container_census.Base.{
  ◌≡◌, ◌↔◌, ◌⊎◌, inl, inr, refl, sym, ap, ◌∙◌, true, false, List, [], ◌∷◌, ◌++◌, map, append-nil,
  append_assoc, none, Result, ok, err, text_eq, keep, length, arith, Bool-cases, Memᴰ, ◌<◌,
}
use container_census.Models.{Time, Float64, Host, Container}
use container_census.Storage.Containers.{
  ContainerRow, to_row, save_containers, insert_rows, commit, scan_container,
  get_containers_by_host,
}
use container_census.Storage.Containers.RoundTrip.Latest.{
  mem-get_containers_by_host-save_containers_iff,
}
use container_census.Server.Scans.{
  ScanResult, ScanState, Services, scan_host, scan_hosts, perform_scan,
}

module _ {F : Type 0} where
  -- The row of scan_results for one scan.
  abbrev pub result_of : Host → Time × Time × Result (List (Container F)) → ScanResult
  result_of host (started, completed, err e) = record {
    host_id = host.id;
    host_name = host.name;
    started_at = started;
    completed_at = completed;
    success = false;
    error = e;
    containers_found = 0;
  }
  result_of host (started, completed, ok containers) = record {
    host_id = host.id;
    host_name = host.name;
    started_at = started;
    completed_at = completed;
    success = true;
    error = [];
    containers_found = length containers;
  }

module _ {F Q N : Type 0} (services : Services F Q N) where
  scan_host-results :
      (started completed : Time) (host : Host) (result : Result (List (Container F)))
      (s : ScanState F Q N)
      → (scan_host services started completed host result s).scan_results
        ≡ s.scan_results ++ (result_of host (started, completed, result) ∷ [])
  unfolding scan_host
  scan_host-results started completed host (ok containers) s = refl
  scan_host-results started completed host (err e) s = refl

  scan_hosts-results :
      (scanned : Host → Time × Time × Result (List (Container F))) (hosts : List Host)
      (s : ScanState F Q N)
      → (scan_hosts services scanned hosts s).scan_results
        ≡ s.scan_results
          ++ map (λ host. result_of host (scanned host)) (keep (λ host. host.enabled) hosts)
  unfolding scan_hosts
  scan_hosts-results scanned [] s = sym (append-nil s.scan_results)
  scan_hosts-results scanned (host ∷ hosts) s = elim (Bool-cases host.enabled) [
    | inl on ↦
        let recorded =
          (scan_hosts-results scanned hosts
              (scan_host services (scanned host).0 (scanned host).1 host (scanned host).2 s)
            ∙ ap
                (λ rows.
                  rows
                  ++ map (λ other. result_of other (scanned other))
                      (keep (λ other. other.enabled) hosts))
                (scan_host-results (scanned host).0 (scanned host).1 host (scanned host).2 s)
            ∙ append_assoc s.scan_results (result_of host (scanned host) ∷ []) (
                map (λ other. result_of other (scanned other))
                  (keep (λ other. other.enabled) hosts))) in
        ground (arith, on, recorded)
    | inr off ↦ rw off (scan_hosts-results scanned hosts s)
  ]

  -- A pass over the hosts records one result for each enabled host, in their order, whether its scan
  -- succeeded or not, and none for the others.
  pub perform_scan-results :
      (scanned : Host → Time × Time × Result (List (Container F))) (s : ScanState F Q N)
      → (perform_scan services scanned s).scan_results
        ≡ s.scan_results
          ++ map (λ host. result_of host (scanned host)) (keep (λ host. host.enabled) s.hosts)
  unfolding perform_scan
  perform_scan-results scanned s = scan_hosts-results scanned s.hosts s

  -- After a scan that succeeded, the latest containers of the host are those that the scan found, as they
  -- are read back from the database; but a scan that found none leaves those of the scan before. The scan
  -- is later than the stored rows of the host, and storing it gave no error.
  pub scan_host-latest_iff :
      (fl : Float64 F) (started completed t : Time) (host : Host) (cs : List (Container F))
      (s : ScanState F Q N)
      → ((c : Container F) → Memᴰ c cs → (c.host_id ≡ host.id) × (c.scanned_at ≡ t))
      → ((row : ContainerRow F)
          → Memᴰ row s.containers
          → row.host_id ≡ host.id
          → row.scanned_at < t)
      → (save_containers cs s.containers).1 ≡ none
      → (x : Container F)
      → Memᴰ x (
          get_containers_by_host fl host.id
            (scan_host services started completed host (ok cs) s).containers)
        ↔ ((c : Container F) × Memᴰ c cs × (x ≡ scan_container fl (to_row c)))
          ⊎ (cs ≡ []) × Memᴰ x (get_containers_by_host fl host.id s.containers)
  unfolding scan_host save_containers insert_rows commit
  scan_host-latest_iff fl started completed t host [] s scan older saved x =
      (λ m. inr (refl, m), λ h. elim h [ inl (c, m, e) ↦ absurd (elim m [ ]) | inr (q, m) ↦ m ])
  scan_host-latest_iff fl started completed t host (c ∷ cs) s scan older saved x =
      let (to, from) =
        mem-get_containers_by_host-save_containers_iff fl host.id t (c ∷ cs) s.containers c scan
          older (Memᴰ.head refl) saved x in
      (
        λ m. inl (to m),
        λ h. elim h [ inl found ↦ from found | inr (q, m) ↦ absurd (ground (arith, q)) ],
      )

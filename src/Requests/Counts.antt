-- ===== src/Requests/Counts.antt =====
-- What a request and an iteration add to the sums of the registry.
use wrkr.Prelude.{ℕ, ◌+◌, ◌≡◌, ◌≢◌, Bool, true, false, not, ◌&&◌, arith, if◌then◌else◌}
use wrkr.Metrics.{TagSet}
use wrkr.Registry.HdrHistogram.{Histograms}
use wrkr.Registry.{Registry, add_to_counter, fold_counter_sum}
use wrkr.Registry.Invariant.{IsRegistry}
use wrkr.Tagging.{TagList}
use wrkr.Queries.Summary.{RequestMetricIds, IterationMetricIds}
use wrkr.Requests.{
  RequestSample, IterationSample, with_interner, record_failure, record_latency, protocol_tags,
  record_request, record_iteration, iteration_tags,
}
use wrkr.Requests.Passing.{
  Passes, Passes-trans, with_interner-Passes, add_to_counter-Passes, add_to_histogram-Passes,
}
use wrkr.Requests.Steps.{
  HasRoom, IsReady, apart_sym, fold_counter_sum-Passes, between, record_error_kind-Passes,
  record_failure-Passes, record_latency-Passes,
}

module _ (lib : Histograms) where
  module _ (ids : RequestMetricIds) (sample : RequestSample) (extra : TagList)
      (r : Registry lib.Hist) where
    abbrev tags_of : TagSet
    tags_of = (protocol_tags sample extra r.interner).1

    abbrev begun : Registry lib.Hist
    begun = with_interner r (protocol_tags sample extra r.interner).0

    abbrev requested : Registry lib.Hist
    requested = add_to_counter lib ids.requests_total tags_of 1 begun

    abbrev received : Registry lib.Hist
    received = add_to_counter lib ids.bytes_received_total tags_of sample.bytes_received requested

    abbrev sent : Registry lib.Hist
    sent = add_to_counter lib ids.bytes_sent_total tags_of sample.bytes_sent received

    -- The steps after the bytes.
    sent-Passes :
        (j : ℕ)
        → ids.errors_total ≢ j
        → ids.errors_by_kind_total ≢ j
        → ids.latency ≢ j
        → Passes j sent (record_request lib ids sample extra r)
    unfolding record_request
    sent-Passes j apart₁ apart₂ apart₃ =
        Passes-trans j sent _ _
          (record_failure-Passes lib ids sample extra j tags_of sample.ok sent apart₁ apart₂)
          (record_latency-Passes lib ids sample extra j tags_of _ apart₃)

    -- A failure is counted where the request failed, and the latency after it.
    failed-fold_counter_sum :
        (predicate : TagSet → Bool) (done : Bool)
        → IsRegistry r
        → HasRoom r ids.errors_total 1
        → Passes ids.errors_total r sent
        → ids.errors_by_kind_total ≢ ids.errors_total
        → ids.latency ≢ ids.errors_total
        → fold_counter_sum ids.errors_total predicate (
            record_latency lib ids sample extra tags_of
              (record_failure lib ids sample extra tags_of done sent))
          ≡ fold_counter_sum ids.errors_total predicate r
            + (if not done && predicate tags_of then 1 else 0)
    unfolding record_failure
    failed-fold_counter_sum predicate true wf room first apart apart' =
        let j = ids.errors_total in
        let (wf', defs, series) =
          Passes-trans j r sent _ first
            (record_latency-Passes lib ids sample extra j tags_of sent apart') wf in
        omega (arith, fold_counter_sum-Passes lib j predicate r _ series)
    failed-fold_counter_sum predicate false wf room first apart apart' =
        let j = ids.errors_total in
        between lib j 1 predicate tags_of r sent _ wf room first (
          Passes-trans j _ _ _
            (record_error_kind-Passes lib ids sample extra j sample.error_kind _ apart)
            (record_latency-Passes lib ids sample extra j tags_of _ apart'))

    -- Recording a request, with no other thread in between, raises the sums of its four counters, for
    -- each predicate that takes its tags: requests by one, the bytes by those of the sample, and
    -- failed requests by one where the request failed. For no other predicate is one of them raised.
    -- The registry is well-formed, the six metrics of requests are different, the four are registered
    -- as counters, and their sums stay below the largest u64.
    pub record_request-fold_counter_sum :
        (predicate : TagSet → Bool)
        → IsRegistry r
        → IsReady ids sample r
        → let r' = record_request lib ids sample extra r in
          let taken = predicate (protocol_tags sample extra r.interner).1 in
          (fold_counter_sum ids.requests_total predicate r'
            ≡ fold_counter_sum ids.requests_total predicate r + (if taken then 1 else 0))
          × (fold_counter_sum ids.bytes_received_total predicate r'
              ≡ fold_counter_sum ids.bytes_received_total predicate r
                + (if taken then sample.bytes_received else 0))
          × (fold_counter_sum ids.bytes_sent_total predicate r'
              ≡ fold_counter_sum ids.bytes_sent_total predicate r
                + (if taken then sample.bytes_sent else 0))
          × (fold_counter_sum ids.errors_total predicate r'
              ≡ fold_counter_sum ids.errors_total predicate r
                + (if not sample.ok && taken then 1 else 0))
    unfolding record_request
    record_request-fold_counter_sum predicate wf
          ((apart_q, (apart_v, (apart_s, (apart_e, others)))), room_q, room_v, room_s, room_e) =
        let q = ids.requests_total in
        let v = ids.bytes_received_total in
        let s = ids.bytes_sent_total in
        let e = ids.errors_total in
        let bytes = sample.bytes_received in
        let out = sample.bytes_sent in
        let (qv, (qs, (qe, (qk, (ql, q_end))))) = apart_q in
        let (vs, (ve, (vk, (vl, v_end)))) = apart_v in
        let (se, (sk, (sl, s_end))) = apart_s in
        let (ek, (el, e_end)) = apart_e in
        let to_requested = λ (j : ℕ) (n : q ≢ j).
          Passes-trans j r begun requested (with_interner-Passes j r _)
            (add_to_counter-Passes lib q j 1 tags_of begun n) in
        let to_received = λ (j : ℕ) (n : q ≢ j) (m : v ≢ j).
          Passes-trans j r requested received (to_requested j n)
            (add_to_counter-Passes lib v j bytes tags_of requested m) in
        let to_sent = λ (j : ℕ) (n : s ≢ j). add_to_counter-Passes lib s j out tags_of received n in
        let sent_on =
          λ (j : ℕ) (n : j ≢ e) (m : j ≢ ids.errors_by_kind_total) (l : j ≢ ids.latency).
            sent-Passes j (apart_sym n) (apart_sym m) (apart_sym l) in
        (
          between lib q 1 predicate tags_of r begun _ wf room_q (with_interner-Passes q r _) (
              Passes-trans q requested received _
                (add_to_counter-Passes lib v q bytes tags_of requested (apart_sym qv))
                (Passes-trans q received sent _ (to_sent q (apart_sym qs)) (sent_on q qe qk ql))),
          between lib v bytes predicate tags_of r requested _ wf room_v (to_requested v qv)
              (Passes-trans v received sent _ (to_sent v (apart_sym vs)) (sent_on v ve vk vl)),
          between lib s out predicate tags_of r received _ wf room_s (to_received s qs vs)
              (sent_on s se sk sl),
          failed-fold_counter_sum predicate sample.ok wf room_e
              (Passes-trans e r received sent (to_received e qe ve) (to_sent e se)) (apart_sym ek)
              (apart_sym el),
        )

  module _ (ids : IterationMetricIds) (sample : IterationSample) (extra : TagList)
      (r : Registry lib.Hist) where
    -- Recording an iteration, with no other thread in between, raises the sum of the iterations by one
    -- for each predicate that takes its tags, and for no other. The registry is well-formed, the two
    -- metrics are different, the first is registered as a counter and its sum stays below the largest
    -- u64.
    pub record_iteration-fold_counter_sum :
        (predicate : TagSet → Bool)
        → IsRegistry r
        → ids.iterations_total ≢ ids.iteration_duration
        → HasRoom r ids.iterations_total 1
        → fold_counter_sum ids.iterations_total predicate (record_iteration lib ids sample extra r)
          ≡ fold_counter_sum ids.iterations_total predicate r
            + (if predicate (iteration_tags sample extra r.interner).1 then 1 else 0)
    unfolding record_iteration
    record_iteration-fold_counter_sum predicate wf apart room =
        let j = ids.iterations_total in
        between lib j 1 predicate _ r _ _ wf room (with_interner-Passes j r _)
          (add_to_histogram-Passes lib ids.iteration_duration j _ _ _ (apart_sym apart))

-- ===== src/Models/RoundTrip.antt =====
-- What the library accepts for publication, its readers accept.
use openevent_modules_model.Base.{
  ℕ, ◌≡◌, refl, ◌∙◌, ap, Bool, true, false, Option, some, ok, List, [], ◌∷◌, arith,
}
use openevent_modules_model.Models.Value.{Value, dict, get_field}
use openevent_modules_model.Models.Kind.{Kind, required, optional}
use openevent_modules_model.Models.Validate.{
  Check, checks, run_checks, validate, no_unknown, no_missing, valid_kind,
}
use openevent_modules_model.Models.Payload.{Bytes, read, parse_decoded, parse_payload}
use openevent_modules_model.Models.WellFormed.{Passed, run_checks-Passed, validate-ok}
use openevent_modules_model.Models.Input.{
  Input, request_input, result_input, append_input, end_input, cancel_input, input_fields,
  initialize, to_payload, kind_of_input,
}

run_checks-ok : (cs : List Check) → Passed cs → run_checks cs ≡ ok tt
unfolding run_checks
run_checks-ok [] p = refl
run_checks-ok ((b, c) ∷ cs) (h, p) = rw h (run_checks-ok cs p)

-- Nothing but the timestamp, which is natural, and the check of the body tell the reader's checks
-- from the writer's.
checks-Passed :
    (ts : ℕ) (i : Input)
    → Passed (checks false (kind_of_input i) (input_fields 0 i))
    → Passed (checks true (kind_of_input i) (input_fields ts i))
unfolding checks input_fields get_field no_unknown no_missing required optional
checks-Passed ts (request_input stream_id method path body provider prev_seq)
      (u, (m, (s, (t, (ps, (rs, (pr, (me, (pa, (b, rest)))))))))) =
    (u, (m, (s, (refl, (ps, (rs, (pr, (me, (pa, (refl, rest))))))))))
checks-Passed ts (result_input stream_id prev_seq status_code headers body)
      (u, (m, (s, (t, (ps, (rs, (pr, (me, (pa, (b, rest)))))))))) =
    (u, (m, (s, (refl, (ps, (rs, (pr, (me, (pa, (refl, rest))))))))))
checks-Passed ts (append_input stream_id request_seq prev_seq body)
      (u, (m, (s, (t, (ps, (rs, (pr, (me, (pa, (b, rest)))))))))) =
    (u, (m, (s, (refl, (ps, (rs, (pr, (me, (pa, (refl, rest))))))))))
checks-Passed ts (end_input stream_id request_seq status_code end_status body)
      (u, (m, (s, (t, (ps, (rs, (pr, (me, (pa, (b, rest)))))))))) =
    (u, (m, (s, (refl, (ps, (rs, (pr, (me, (pa, (refl, rest))))))))))
checks-Passed ts (cancel_input stream_id request_seq)
      (u, (m, (s, (t, (ps, (rs, (pr, (me, (pa, (b, rest)))))))))) =
    (u, (m, (s, (refl, (ps, (rs, (pr, (me, (pa, (refl, rest))))))))))

-- The kind of an input's dict is its class's.
validate-kind :
    (decoded : Bool) (ts : ℕ) (i : Input)
    → run_checks (checks decoded (kind_of_input i) (input_fields ts i)) ≡ ok tt
    → validate decoded (dict (input_fields ts i)) ≡ ok (kind_of_input i)
unfolding validate input_fields valid_kind get_field
validate-kind decoded ts (request_input _ _ _ _ _ _) h = rw h refl
validate-kind decoded ts (result_input _ _ _ _ _) h = rw h refl
validate-kind decoded ts (append_input _ _ _ _) h = rw h refl
validate-kind decoded ts (end_input _ _ _ _ _) h = rw h refl
validate-kind decoded ts (cancel_input _ _) h = rw h refl

kind-validate : (i : Input) (k : Kind) → initialize i ≡ ok k → k ≡ kind_of_input i
unfolding initialize validate input_fields valid_kind get_field
kind-validate (request_input _ _ _ _ _ _) k h = ground arith
kind-validate (result_input _ _ _ _ _) k h = ground arith
kind-validate (append_input _ _ _ _) k h = ground arith
kind-validate (end_input _ _ _ _ _) k h = ground arith
kind-validate (cancel_input _ _) k h = ground arith

read-ts :
    (ts : ℕ) (i : Input)
    → read (kind_of_input i) (input_fields ts i) ≡ read (kind_of_input i) (input_fields 0 i)
unfolding read input_fields get_field
read-ts ts (request_input _ _ _ _ _ _) = refl
read-ts ts (result_input _ _ _ _ _) = refl
read-ts ts (append_input _ _ _ _) = refl
read-ts ts (end_input _ _ _ _ _) = refl
read-ts ts (cancel_input _ _) = refl

initialize-Passed :
    (i : Input) (k : Kind)
    → initialize i ≡ ok k
    → Passed (checks false (kind_of_input i) (input_fields 0 i))
unfolding initialize
initialize-Passed i k h =
    let same = kind-validate i k h in
    run_checks-Passed _ (validate-ok false (input_fields 0 i) (kind_of_input i) (h ∙ ap ok same))

validate-to_payload :
    (ts : ℕ) (i : Input) (k : Kind)
    → initialize i ≡ ok k
    → validate true (dict (input_fields ts i)) ≡ ok (kind_of_input i)
validate-to_payload ts i k h =
    validate-kind true ts i (run_checks-ok _ (checks-Passed ts i (initialize-Passed i k h)))

-- An input that its class accepts is published as a payload that `parse_payload` accepts, at every
-- time, with the input's kind and fields, where the decoder gives back the dict that was encoded.
pub to_payload-parses :
    (loads : Bytes → Option Value) (dumps : Value → Bytes) (ts : ℕ) (i : Input) (k : Kind)
    → loads (dumps (to_payload ts i)) ≡ some (to_payload ts i)
    → initialize i ≡ ok k
    → parse_payload loads (dumps (to_payload ts i)) ≡ ok (read (kind_of_input i) (input_fields 0 i))
unfolding parse_payload parse_decoded to_payload
to_payload-parses loads dumps ts i k codec h =
    rw (codec, validate-to_payload ts i k h) (ap ok (read-ts ts i))

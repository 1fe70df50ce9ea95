-- ===== src/Smb/Charger/View/Outcomes.antt =====
-- The outcome of a whole detection step, and the budget of reruns over many steps.
use Prim.Native.String.{String}
use mathlib.Core.Path.{subst}
use nabu_charger.Prelude.{
  ℕ, ◌+◌, ◌-◌, ◌≤◌, ◌<◌, ◌≡◌, refl, sym, ap, ◌∙◌, inl, inr, ◌⊎◌, false, Option, none, some, List,
  [], ◌∷◌, ok, arith, leb, min, u8_max, if◌then◌else◌,
}
use nabu_charger.Prelude.Methods.{modify, gets, ◌>>=◌, ◌>>◌}
use nabu_charger.Prelude.Methods.Ends.{
  Done, Ends, bind-Ends, branch-Ends, weaken-Ends, known-Ends, pure-Ends, modify-Ends,
}
use nabu_charger.Smb.Regs
use nabu_charger.Smb.Error.{ChargerError}
use nabu_charger.Smb.Apsd.{adapter_decode}
use nabu_charger.Smb.Platform.{ChargerTransport, Clock}
use nabu_charger.Smb.Charger.{Charger, State, state_eq}
use nabu_charger.Smb.Charger.Registers.{read_reg}
use nabu_charger.Smb.Charger.Session.{or_fail}
use nabu_charger.Smb.Charger.Detect.{
  Detection, pending, ready, begin_detection, judged, result_of, detect_step,
}
use nabu_charger.Smb.Charger.Transparent.{read_reg-Keeps}
use nabu_charger.Smb.Charger.View.{
  View, view, Has, After, from_view, in_state, Failed, view-IsTransparent, now-Ends, request-Ends,
  require_open-Ends, transition-Ends, or_fail-Ends,
}
use nabu_charger.Smb.Charger.View.Detects.{
  begun_state, Begun, Undecided, Decided, Faults, Sized, Judged, counted, Failed-Faults,
  judged-Ends,
}

module _ {W : Type 0} (io : ChargerTransport W) (clock : Clock W) (v : View) where
  begin-Ends :
      {X : ChargerError → Charger W → Type 0} (o : Option ℕ) (ms : ℕ)
      → o ≡ v.detect_started_ms
      → Ends (Has v) (begin_detection io clock o ms) (λ s. After (Begun v)) X
  begin-Ends (some s) ms e = pure-Ends s (λ p h. record {
    same_config = ap (λ (x : View). x.config) h;
    same_adapter = ap (λ (x : View). x.adapter) h;
    same_reruns = ap (λ (x : View). x.reruns) h;
    begun_from = ap (λ (x : View). x.state) h ∙ ap (λ o. begun_state o v.state) e;
  })
  begin-Ends none ms e =
      let started = record v { detect_started_ms = some ms } in
      bind-Ends (λ u. Has started) _ _
        (modify-Ends _ (λ p h. ap (λ (x : View). record x { detect_started_ms = some ms }) h))
        (λ u.
          bind-Ends (λ u. Has (in_state State.detecting started)) _ _
            (transition-Ends clock started State.detecting)
            (λ u. pure-Ends ms (λ p h. record {
              same_config = ap (λ (x : View). x.config) h;
              same_adapter = ap (λ (x : View). x.adapter) h;
              same_reruns = ap (λ (x : View). x.reruns) h;
              begun_from = ap (λ (x : View). x.state) h ∙ ap (λ o. begun_state o v.state) e;
            })))

  Begun-Faults :
      (w : View)
      → Begun v w
      → (e : ChargerError) (p : Charger W) → Failed clock w e p
      → After (Faults v) p
  Begun-Faults w b e p h =
      let (s, a, c) = Failed-Faults clock w e p h in (s, a ∙ b.same_adapter, c ∙ b.same_config)

  read-Ends :
      (w : View) (request : ℕ) (op : String) (addr : ℕ)
      → Begun v w
      → Ends
          (Has w)
          (or_fail clock request op (read_reg io clock addr request))
          (λ a. Has w)
          (λ e. After (Faults v))
  read-Ends w request op addr b =
      weaken-Ends (λ a p h. h) (Begun-Faults w b)
        (or_fail-Ends clock w request op _
          (read_reg-Keeps io clock (view-IsTransparent io clock w) addr request))

  decided :
      (w : View) → Begun v w → (d : Detection) (x : View) → Judged (counted w) d x → Decided v d x
  decided w b (ready a) x (s, y, c, r) = (s, y, c ∙ b.same_config, r ∙ b.same_reruns)
  decided w b (pending ms n) x (s, y, c, inl (early, r)) = (
    s ∙ b.begun_from,
    y ∙ b.same_adapter,
    c ∙ b.same_config,
    inl (subst (λ k. ms < k.detect_timeout_ms) b.same_config early, r ∙ b.same_reruns),
  )
  decided w b (pending ms n) x (s, y, c, inr (r, left)) = (
    s ∙ b.begun_from,
    y ∙ b.same_adapter,
    c ∙ b.same_config,
    inr (
      r ∙ ap (λ k. k + 1) b.same_reruns,
      omega (arith, b.same_reruns, ap (λ k. k.max_detect_reruns) b.same_config),
    ),
  )

  answer-Ends :
      (w : View) (request status result elapsed_ms : ℕ)
      → Sized v
      → Begun v w
      → Ends
          (Has w)
          (modify (λ p. record p { attempts = min (p.attempts + 1) u8_max })
            >> (gets (λ p. p.config) >>= λ config.
                judged io clock request status result elapsed_ms
                  (adapter_decode status result config.qc35)))
          (λ d. After (Decided v d))
          (λ e. After (Faults v))
  answer-Ends w request status result elapsed_ms size b =
      let sized : Sized (counted w) =
        subst (λ k. k.max_detect_reruns ≤ 255) (sym b.same_config) size in
      bind-Ends (λ u. Has (counted w)) _ _ (modify-Ends _ (λ p h. ap counted h))
        (λ u.
          known-Ends _ w.config _ (λ p h. ap (λ (x : View). x.config) h)
            (weaken-Ends (λ d p h. decided w b d (view p) h)
              (λ e p (s, a, c). (s, a ∙ b.same_adapter, c ∙ b.same_config))
              (judged-Ends io clock (counted w) request status result elapsed_ms _ sized)))

  result-Ends :
      (w : View) (request : ℕ) (op : String) (status : ℕ)
      → Begun v w
      → Ends (Has w) (result_of io clock request op status) (λ a. Has w) (λ e. After (Faults v))
  result-Ends w request op status b =
      branch-Ends _ _ _ (λ t. pure-Ends 0 (λ p h. h))
        (λ f. read-Ends w request op Regs.apsd_result_status b)

  pub detect_step-Ends :
      state_eq v.state State.closed ≡ false
      → Sized v
      → Ends (Has v) (detect_step io clock) (λ d. After (Decided v d)) (λ e. After (Faults v))
  unfolding detect_step
  detect_step-Ends o size =
      bind-Ends (λ u. Has v) _ _ (require_open-Ends v o)
        (λ u.
          bind-Ends (λ r. Has v) _ _ (request-Ends v)
            (λ request.
              bind-Ends (λ ms. Has v) _ _ (now-Ends clock v)
                (λ ms.
                  known-Ends _ v.detect_started_ms _
                    (λ p h. ap (λ (x : View). x.detect_started_ms) h)
                    (bind-Ends (λ s. After (Begun v)) _ _ (begin-Ends v.detect_started_ms ms refl)
                      (λ started. from_view (Begun v) (λ w b.
                        bind-Ends (λ a. Has w) _ _
                          (read-Ends w request "detect.read_status" Regs.apsd_status b)
                          (λ status.
                            bind-Ends (λ a. Has w) _ _
                              (result-Ends w request "detect.read_result" status b)
                              (λ result. answer-Ends w request status result _ size b))))))))

-- Successive undecided answers of one session, with what the world does between them: the elapsed times
-- that they report.
pub data Waits {W : Type 0} (io : ChargerTransport W) (clock : Clock W)
    : Charger W → List ℕ → Type 0 where
  over : {p : Charger W} → Waits io clock p []
  again :
      {p : Charger W} {ms : ℕ} {l : List ℕ} (f : W → W) (n : ℕ) (q : Charger W)
      → detect_step io clock (record p { world = f p.world }) ≡ (ok (pending ms n), q)
      → Waits io clock q l
      → Waits io clock p (ms ∷ l)

abbrev pub late_answers : ℕ → List ℕ → ℕ
late_answers timeout_ms [] = 0
late_answers timeout_ms (ms ∷ l) = (if leb timeout_ms ms then 1 else 0) + late_answers timeout_ms l

spent_one :
    (timeout_ms limit before after ms late : ℕ)
    → (((ms < timeout_ms) × (after ≡ before)) ⊎ ((after ≡ before + 1) × (before < limit)))
    → late ≤ limit - after
    → (if leb timeout_ms ms then 1 else 0) + late ≤ limit - before
spent_one timeout_ms limit before after ms late (inl (early, e)) h = ground arith
spent_one timeout_ms limit before after ms late (inr (e, left)) h = ground arith

pub begun_open :
    (o : Option ℕ) (s : State)
    → state_eq s State.closed ≡ false
    → state_eq (begun_state o s) State.closed ≡ false
begun_open none s e = refl
begun_open (some ms) s e = e

module _ {W : Type 0} (io : ChargerTransport W) (clock : Clock W) where
  undecided :
      (p : Charger W) (ms n : ℕ) (q : Charger W)
      → state_eq p.state State.closed ≡ false
      → p.config.max_detect_reruns ≤ 255
      → detect_step io clock p ≡ (ok (pending ms n), q)
      → Undecided (view p) ms (view q)
  undecided p ms n q o size e =
      subst (Done (λ d. After (Decided (view p) d)) (λ x. After (Faults (view p)))) e
        ((detect_step-Ends io clock (view p) o size).ends p refl)

  -- On any transport and clock, a detection step of an open session ends in one of three ways. It names
  -- an adapter: the session is ready and holds it. It is undecided: the state is `detecting`, or what it was
  -- if detection had begun before, the adapter is kept, and either the step came before the time-out and
  -- used no rerun, or it used exactly one of those that were left. It fails: the session is faulted, and
  -- the adapter is kept. The settings are kept.
  pub detect_step-Decided :
      (p : Charger W)
      → state_eq p.state State.closed ≡ false
      → p.config.max_detect_reruns ≤ 255
      → Done
          (λ d q. Decided (view p) d (view q))
          (λ e q. Faults (view p) (view q))
          (detect_step io clock p)
  detect_step-Decided p o size = (detect_step-Ends io clock (view p) o size).ends p refl

  -- However the world behaves, an open session answers at most as often that detection is undecided at or
  -- past its time-out as it has reruns left: then it names an adapter or fails.
  pub Waits-bounded :
      {p : Charger W} {l : List ℕ}
      → state_eq p.state State.closed ≡ false
      → p.config.max_detect_reruns ≤ 255
      → Waits io clock p l
      → late_answers p.config.detect_timeout_ms l ≤ p.config.max_detect_reruns - p.reruns
  Waits-bounded o size over = omega arith
  Waits-bounded {p} {l} o size (again {ms = ms} {l = rest} f n q e more) =
      let (s, a, c, r) = undecided (record p { world = f p.world }) ms n q o size e in
      let open_q : state_eq q.state State.closed ≡ false =
        ap (λ x. state_eq x State.closed) s ∙ begun_open p.detect_started_ms p.state o in
      let fits : q.config.max_detect_reruns ≤ 255 =
        subst (λ k. k.max_detect_reruns ≤ 255) (sym c) size in
      spent_one p.config.detect_timeout_ms p.config.max_detect_reruns p.reruns q.reruns ms
        (late_answers p.config.detect_timeout_ms rest) r
        (subst (λ k. late_answers k.detect_timeout_ms rest ≤ k.max_detect_reruns - q.reruns) c
          (Waits-bounded open_q fits more))

-- ===== src/Ingestion/System/Waiting.antt =====
-- What `Stop` waits for.
use distributed_logs_aggrega.Base.{ℕ, ◌≡◌, ◌∙◌, true, false, Bool-cases, inl, inr}
use distributed_logs_aggrega.Config.{IngestorConfig}
use distributed_logs_aggrega.Ingestion.{Pipeline}
use distributed_logs_aggrega.Ingestion.Worker.{Driver, Wake}
use distributed_logs_aggrega.Ingestion.System.{
  Worker, System, resume, Step, submits, stops, receives, drained, ticks, scrapes, observes,
  scraper_leaves, cancels, stop, Reach, here, next, is_present, IsDone,
}
use distributed_logs_aggrega.Ingestion.System.Started.{IsNew, IsStarted}

-- The scraper stays while the context does.
abbrev Scrapes : System → Type 0
Scrapes s = s.canceled ≡ false → s.scraping ≡ true

resume-scraping :
    (i : ℕ) (w : Wake) (drv : Driver) (k : Worker) (s : System)
    → Scrapes s
    → Scrapes (resume i w drv k s)
unfolding resume
resume-scraping i w drv k s h = h

Step-Scrapes : {s t : System} → Step s t → Scrapes s → Scrapes t
Step-Scrapes {s} (submits r ev e) h = rw e h
Step-Scrapes {s} (stops i k drv runs c e) h = rw e (resume-scraping i _ drv k s h)
Step-Scrapes {s} (receives i k drv ev ch runs got e) h = rw e (resume-scraping i _ drv k _ h)
Step-Scrapes {s} (drained i k drv runs c e) h = rw e (resume-scraping i _ drv k s h)
Step-Scrapes {s} (ticks i k drv runs e) h = rw e (resume-scraping i _ drv k s h)
Step-Scrapes {s} (scrapes b e) h = rw e h
Step-Scrapes {s} (observes f e) h = rw e h
Step-Scrapes {s} (scraper_leaves b c e) h = rw e (λ live. cc (live, c))
Step-Scrapes {s} (cancels e) h = rw e (λ live. cc)
Step-Scrapes {s} (stop ch c e) h = rw e h

Reach-Scrapes : {s t : System} → Scrapes s → Reach s t → Scrapes t
Reach-Scrapes h here = h
Reach-Scrapes h (next path st) = Step-Scrapes st (Reach-Scrapes h path)

cancelled_if : (s : System) → Scrapes s → s.scraping ≡ false → s.canceled ≡ true
cancelled_if s h off = elim (Bool-cases s.canceled) [ inl c ↦ c | inr c ↦ cc (h c, off) ]

-- From the start of a new pipeline with collectors on, all that `Stop` waits for has come to an end
-- only if the context is cancelled, whether or not the queue is closed and drained.
pub stop_waits :
    {cfg : IngestorConfig} {p : Pipeline} {s t : System}
    → IsNew cfg p
    → IsStarted p s
    → Reach s t
    → is_present p.collectors ≡ true
    → IsDone t
    → t.canceled ≡ true
stop_waits {s} {t} new started path counted done =
    cancelled_if t (Reach-Scrapes (λ _. started.scraper ∙ counted) path) done.1

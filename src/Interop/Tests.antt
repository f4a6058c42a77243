-- ===== src/Interop/Tests.antt =====
-- Runs of the interop client.
use nim_vortex.Prelude.{◌≡◌, refl, true, some, List, [], ◌∷◌, ◌++◌}
use nim_vortex.Prelude.Bytes.{Bytes, codes, equal}
use nim_vortex.Interop.{Reply, replied, Round, passed, failed, main}
use nim_vortex.Interop.Verdict.{GoodWorkers, Decides, main-Decides}
use nim_vortex.Interop.Checks.{total_of}
use nim_vortex.Interop.{
  is_text, unless, echoes_method, checked, each_method, is_blank, names_subject, whoami, rounds,
  worker, gather, results, exit,
}
use nim_vortex.Stress.{has_part}
use nim_vortex.Prelude.Text.{starts_with, strip, lstrip, rstrip, keep_or_drop, is_space}

abbrev good_reply : Bytes → Reply
good_reply m = record {
  status = 200;
  version = codes "HTTP/2";
  encoding = some (codes "br");
  echoed = some m;
  text = codes "method=" ++ m;
}

abbrev good_round : Round
good_round = record {
  echo = λ m. replied (good_reply m);
  subject = replied (record (good_reply []) { text = codes "CN=client" });
}

-- A server that sends no name of the client.
abbrev nameless : Round
nameless = record good_round { subject = replied (record (good_reply []) { text = codes " -\n" }) }

abbrev two_workers : List (List Round)
two_workers = (good_round ∷ good_round ∷ []) ∷ (good_round ∷ []) ∷ []

main-Decides_example :
    Decides
      (GoodWorkers true (codes "br") two_workers)
      (total_of true two_workers)
      (main true (codes "br") two_workers)
main-Decides_example = main-Decides true (codes "br") two_workers

twenty_four : main true (codes "br") two_workers ≡ passed 24
unfolding main exit gather results worker rounds each_method checked unless is_text echoes_method
    whoami names_subject is_blank equal has_part starts_with strip lstrip rstrip keep_or_drop
    is_space
twenty_four = refl

no_subject :
    main true (codes "br") ((nameless ∷ []) ∷ [])
    ≡ failed (codes "mTLS /whoami did not report a client subject")
unfolding main exit gather results worker rounds each_method checked unless is_text echoes_method
    whoami names_subject is_blank equal has_part starts_with strip lstrip rstrip keep_or_drop
    is_space
no_subject = refl

-- ===== src/Tests/Lifecycles.antt =====
-- The life of the modulator, the resamplers and the daemon at concrete inputs.
use jmpxrds.Base.{
  ℕ, ◌==◌, List, [], ◌∷◌, ◌++◌, Option, none, some, Bool, true, false, if◌then◌else◌, ◌≡◌, refl,
  arith,
}
use jmpxrds.Base.Int.{pos}
use jmpxrds.Resampler.Life.{ResamplerAnswers, resampler_init}
use jmpxrds.Resampler.Laws.{Initialised, resampler_init-Initialised}
use jmpxrds.Fmmod.Parts.{FilterAnswers}
use jmpxrds.Fmmod.FilterLife.{LpfAnswers}
use jmpxrds.Fmmod.Life.{PartAnswers, fmmod_initialize}
use jmpxrds.Fmmod.Lifetime.{Finished, fmmod_initialize-Finished}
use jmpxrds.Fmmod.Window.{applied, applied-window}
use jmpxrds.Rtp.Receivers.{RtpServer, Host, contains}
use jmpxrds.Rtp.Admit.{IsAdded}
use jmpxrds.Tool.Daemon.{terminating, main_loop, add_ip, rtp_main}
use jmpxrds.Tool.DaemonLaws.{Is32Bits, up, stopped}
use jmpxrds.Tool.Admission.{add_host, remove_host, rtp_tool-IsAdded}
use jmpxrds.Tests.Data.{state_1}
use jmpxrds.Tests.Sharing.{Names, table}
use jmpxrds.Tests.Processing.{numbers, lpf_1}
use jmpxrds.Tests.Serving.{
  text_sink, aton, addr_1, addr_2, served_1, clients_1, process_1, rtp_1, mapping_2, world_3,
  process_1-IsReady, answers_4,
}

-- Everything is given, but for the resampler of the output.
abbrev no_downsampler : ResamplerAnswers
no_downsampler = record {
  audio_l = true;
  audio_r = true;
  mt = false;
  thread = pos 0;
  rds = true;
  mpx = false;
}

resampler_init-Initialised_example :
    Initialised no_downsampler false false (resampler_init no_downsampler 48000 228000 192000)
resampler_init-Initialised_example = resampler_init-Initialised no_downsampler 48000 228000 192000

abbrev good_lpf : LpfAnswers
good_lpf = record {
  real_in = true;
  real_out = true;
  complex_buff = true;
  filter_resp = true;
  dft_plan = true;
  ift_plan = true;
}

abbrev good_filters : FilterAnswers
good_filters = record {
  lpf_l = good_lpf;
  lpf_r = good_lpf;
  ssb_lpf = good_lpf;
  ht = record { real_buff = true; complex_buff = true; dft_plan = true; ift_plan = true };
}

abbrev good_answers : PartAnswers
good_answers = record {
  jack = record { opened = true; unique = true; in_l = true; in_r = true };
  jack_samplerate = 48000;
  num_in_samples = 1024;
  buffers = record {
    inbuf_l = true;
    inbuf_r = true;
    uaudio_buf_0 = true;
    uaudio_buf_1 = true;
    umpxbuf = true;
    outbuf = true;
  };
  rsmpl = record {
    audio_l = true;
    audio_r = true;
    mt = false;
    thread = pos 0;
    rds = true;
    mpx = true;
  };
  flts = good_filters;
  rds_enc = record { shm = some state_1; malloc_0 = true; malloc_1 = true; thread_code = pos 0 };
  mkfifo = true;
  rtpsrv = record answers_4 { network = record answers_4.network { link_rtcpsrc = true } };
  shm = true;
  thread_code = pos 0;
  activated = true;
}

-- The last of the buffers is refused: those before it are freed twice.
abbrev no_outbuf_answers : PartAnswers
no_outbuf_answers = record good_answers { buffers = record good_answers.buffers { outbuf = false } }

fmmod_initialize-Finished_example :
    Finished {S = ℕ} false true false false true (fmmod_initialize 0 4 no_outbuf_answers)
fmmod_initialize-Finished_example = fmmod_initialize-Finished 0 4 no_outbuf_answers

applied-window_example :
    (applied numbers lpf_1 1 ((5 ∷ 6 ∷ []) ∷ (7 ∷ 8 ∷ []) ∷ (9 ∷ 1 ∷ []) ∷ [])).real_in
    ≡ 7 ∷ 8 ∷ 9 ∷ 1 ∷ []
applied-window_example =
    applied-window numbers lpf_1 1 ((5 ∷ 6 ∷ []) ∷ (7 ∷ 8 ∷ []) ∷ (9 ∷ 1 ∷ []) ∷ []) refl
      (refl, (refl, (refl, tt))) (omega arith)

-- A server that keeps its addresses in a list.
abbrev add_first : ℕ → List ℕ → Option (List ℕ)
add_first addr served = some (addr ∷ served)

abbrev drop_first : ℕ → List ℕ → Option (List ℕ)
drop_first addr [] = none
drop_first addr (x ∷ served) = if addr == x then some served else none

aton-Is32Bits : (t : List ℕ) → Is32Bits (aton t)
aton-Is32Bits t = by_test (contains t (48 ∷ 46 ∷ 49 ∷ []))
  where
    by_test : (b : Bool) → Is32Bits (if b then some addr_1 else some addr_2)
    by_test true = omega arith
    by_test false = omega arith

abbrev adds : ℕ → Host (List ℕ) Names → Option (Host (List ℕ) Names)
adds addr h = add_host text_sink table aton true true served_1 addr h

abbrev removes : ℕ → Host (List ℕ) Names → Option (Host (List ℕ) Names)
removes addr h = remove_host text_sink table aton true true served_1 addr h

rtp_tool-IsAdded_example :
    (h' : Host (List ℕ) Names) × (srv' : RtpServer (List ℕ)) × (main_loop adds removes true
        ((rtp_main aton (add_ip [] ∷ [])).0 ++ terminating ∷ [])
        (up adds removes aton process_1 false)
      ≡ stopped adds removes aton (up adds removes aton process_1 false) (some h'))
    × IsAdded text_sink table aton addr_2 clients_1 process_1 rtp_1 h' srv'
rtp_tool-IsAdded_example =
    rtp_tool-IsAdded text_sink table aton true true served_1 [] addr_2 clients_1 process_1 rtp_1
      mapping_2 world_3 4096 10 1 refl aton-Is32Bits process_1-IsReady

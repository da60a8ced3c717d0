-- ===== src/Worker/Examples/Outputs.antt =====
-- The theorems on the output of a step (internal/worker/run.go) at a concrete step.
use taskcluster_multistage_d.Common.{
  some, none, ◌≡◌, ◌≤◌, refl, true, List, [], ◌∷◌, ◌++◌, length, read_lines, buffer_size, newline,
}
use taskcluster_multistage_d.PubSub.Buffer.{new_buffer, write}
use taskcluster_multistage_d.Log.Fancy.{Style, fancy_log, write_fields, prefix_of}
use taskcluster_multistage_d.Log.Pipe.{next_line, copy_turn, write_chunk, close_pipe}
use taskcluster_multistage_d.Log.Pipe.Measure.{turns_left}
use taskcluster_multistage_d.Worker.Output.{
  Output, Turn, writes, closes, copies, ends, Labels, step_labels, new_output, render, say, turn,
  run_output,
}
use taskcluster_multistage_d.Worker.Output.Entries.{lines_of, rendered}
use taskcluster_multistage_d.Worker.Output.Copied.{copying, run_output-copied}
use taskcluster_multistage_d.Worker.Output.Lost.{run_output-lost}
use taskcluster_multistage_d.Worker.Output.Uploaded.{
  backing_request, link_request, run_output-uploaded,
}
use taskcluster_multistage_d.Worker.Calls.{creates_artifact, puts_artifact}
use taskcluster_multistage_d.Worker.Task.{
  artifact_call, closes_log, reports, completed, live_log_backing, live_log_name, report_of,
  finish_task,
}
use taskcluster_multistage_d.Worker.Examples.{claim}
use taskcluster_multistage_d.Worker.Examples.Tasks.{task_queue}

-- A style without colours.
abbrev plain_style : Style
plain_style = record {
  marshal_text = λ s. s;
  marshal_texts = λ ss. [];
  white = λ s. s;
  red = λ s. s;
  coloured = λ c s. s;
  name_hash = λ s. 7;
}

abbrev labels : Labels
labels = step_labels (b's' ∷ [])

-- Two writes to stdout, the second without a newline at its end, and one to stderr between them.
abbrev schedule : List Turn
schedule =
    writes 0 (b'a' ∷ newline ∷ b'b' ∷ [])
    ∷ writes 1 (b'e' ∷ newline ∷ [])
    ∷ copies 0 (b't' ∷ [])
    ∷ copies 1 (b't' ∷ [])
    ∷ copies 0 (b't' ∷ [])
    ∷ writes 0 (b'c' ∷ [])
    ∷ copies 1 (b't' ∷ [])
    ∷ copies 0 (b't' ∷ [])
    ∷ closes 0
    ∷ closes 1
    ∷ []

abbrev step_ended : Output
step_ended = run_output plain_style labels schedule new_output

run_output-copied_example :
    let p =
      run_output plain_style labels (copying (turns_left (step_ended.stream 0)) 0 []) step_ended in
    ((p.stream 0).finished ≡ true)
    × (lines_of 0 p.logged ≡ read_lines (step_ended.stream 0).written)
    × (p.refused ≡ [])
    × (p.live.contents ≡ rendered plain_style labels p.logged)
unfolding run_output turn say render fancy_log write_fields prefix_of copy_turn next_line
    write_chunk close_pipe write new_buffer
run_output-copied_example = run_output-copied plain_style labels schedule 0 [] refl refl refl

-- The last line, "bc", is lost.
run_output-lost_example :
    let p = run_output plain_style labels (ends ∷ copies 0 [] ∷ []) step_ended in
    (p.live.contents ≡ step_ended.live.contents)
    × (lines_of 0 p.logged ++ read_lines (step_ended.stream 0).buffer
        ≡ read_lines (step_ended.stream 0).written)
    × (length (step_ended.stream 0).buffer ≤ buffer_size)
unfolding run_output turn say render fancy_log write_fields prefix_of copy_turn next_line
    write_chunk close_pipe write new_buffer
run_output-lost_example =
    run_output-lost plain_style labels schedule (copies 0 [] ∷ []) 0 refl refl refl

run_output-uploaded_example :
    finish_task task_queue step_ended.live claim none
    ≡ closes_log
      ∷ artifact_call (creates_artifact live_log_backing (backing_request claim))
      ∷ artifact_call (
          puts_artifact "https://s3.example/app"
            (length (rendered plain_style labels step_ended.logged))
            (some (rendered plain_style labels step_ended.logged)))
      ∷ artifact_call (creates_artifact live_log_name (link_request claim))
      ∷ reports claim.credentials claim.task_id completed
      ∷ []
unfolding report_of
run_output-uploaded_example =
    run_output-uploaded plain_style labels schedule task_queue claim none "https://s3.example/app"
      (record { status = 200; body_text = "" })
      (record {
        body = "{}";
        content_type = "";
        created = refl;
        decoded = refl;
        valid_url = refl;
        answered = refl;
      })

stdout_of_step :
    (lines_of 0 step_ended.logged ≡ (b'a' ∷ []) ∷ [])
    × ((step_ended.stream 0).buffer ≡ b'b' ∷ b'c' ∷ [])
unfolding run_output turn say render fancy_log write_fields prefix_of copy_turn next_line
    write_chunk close_pipe write new_buffer
stdout_of_step = (refl, refl)

-- ===== src/Examples/Data.antt =====
-- A small database: two admins, a user, a session with one image, two jobs and two questions.
use coeus.Prelude.{ℕ, String, true, Option, none, some, List, [], ◌∷◌, pos}
use coeus.Domain.Types.{Question, Session, Image, Job}
use coeus.Storage.World.{User, Link, Db, World}
use coeus.Storage.Users.{Spelling}

abbrev pub user : ℕ → String → String → User
user id email role = record {
  id = id;
  email = email;
  password_hash = "x";
  role = role;
  active = true;
  token_version = 3;
  created_at = 0;
}

abbrev pub users : List User
users = user 1 "a@x" "admin" ∷ user 2 "b@x" "admin" ∷ user 3 "c@x" "user" ∷ []

-- Another user's id in the path
abbrev pub by_other : Spelling
by_other = record { id = "1"; caller_id = "2" }

abbrev pub session : Session
session = record {
  id = 10;
  user_id = 3;
  duration_seconds = 60;
  buffer_seconds = 5;
  started_at = 0;
  expires_at = some 65;
  status = "open";
}

abbrev pub image : Image
image = record {
  id = 20;
  session_id = 10;
  original = some (1 ∷ 2 ∷ []);
  enhanced = none;
  mime = "image/png";
  width = 4;
  height = 3;
  verification_report = none;
  extraction_error = none;
  created_at = 1;
}

abbrev pub job : ℕ → String → ℕ → Option ℕ → Job
job id status attempts started_at = record {
  id = id;
  image_id = 20;
  session_id = 10;
  status = status;
  attempts = attempts;
  last_error = "";
  queued_at = id;
  started_at = started_at;
  finished_at = none;
}

abbrev pub done_job : Job
done_job = job 30 "done" 1 (some 2)

abbrev pub jobs : List Job
jobs = done_job ∷ job 31 "processing" 1 (some 3) ∷ job 32 "pending" 0 none ∷ []

abbrev pub question : ℕ → String → String → Question
question id hash status = record {
  id = id;
  number = pos 1;
  text = "q";
  text_norm = "q";
  text_hash = hash;
  choices = "a" ∷ "b" ∷ [];
  answers = "a" ∷ [];
  choice_labeling = "letter";
  type = "multiple_choice";
  confidence = pos 0;
  explanation = "";
  embedding = none;
  status = status;
  verified_at = none;
  verified_by = none;
  tags = [];
}

abbrev pub link : ℕ → ℕ → Link
link id question_id = record {
  id = id;
  session_id = 10;
  image_id = 20;
  question_id = question_id;
  extracted_number = pos 1;
  extracted_confidence = pos 0;
}

abbrev pub db : Db
db = record {
  users = users;
  sessions = session ∷ [];
  images = image ∷ [];
  questions = question 40 "h1" "moderation" ∷ question 41 "h2" "error" ∷ [];
  question_tags = [];
  session_questions = link 50 40 ∷ link 51 41 ∷ [];
  jobs = jobs;
}

abbrev pub world : World
world = record { db = db; clock = 100; next_id = 60; trips = 0; faults = λ _. none; left = none }

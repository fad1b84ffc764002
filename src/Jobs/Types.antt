-- ===== src/Jobs/Types.antt =====
-- The data of src/jobs/types.ts. Times are milliseconds; an ISO string that the store writes and
-- reads back is the time that it was made from. An optional field that is not set is `none`.
use ppvda.Base.{ℕ, Option, String}

pub data JobStatus : Type 0 where
  extracting downloading encrypting done failed : JobStatus

pub record Job : Type 0 where
  pub id : String
  pub user_id : String
  pub status : JobStatus
  pub created_at : ℕ
  pub updated_at : ℕ
  pub error : Option String
  pub video_type : Option String
  pub file_size : Option ℕ
  pub duration_sec : Option ℕ
  pub format : Option String
  pub file_path : Option String
  pub darkreel_media_id : Option String

pub record JobEvent : Type 0 where
  pub job_id : String
  pub status : JobStatus
  pub updated_at : ℕ
  pub error : Option String
  pub file_size : Option ℕ
  pub duration_sec : Option ℕ
  pub darkreel_media_id : Option String

-- `Omit<Job, 'filePath' | 'userId'>`
pub record JobResponse : Type 0 where
  pub id : String
  pub status : JobStatus
  pub created_at : ℕ
  pub updated_at : ℕ
  pub error : Option String
  pub video_type : Option String
  pub file_size : Option ℕ
  pub duration_sec : Option ℕ
  pub format : Option String
  pub darkreel_media_id : Option String

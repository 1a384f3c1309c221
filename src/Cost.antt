-- ===== src/Cost.antt =====
-- tools/xolis_aws_cost.py: the AWS command line, what its JSON says, and the totals of a report.
pub mod Login
pub mod Snapshots
pub mod Storage
pub mod Active
pub mod Prices
pub mod Report
pub mod Tests
use xolis.Base.{
  ℕ, ◌+◌, Bool, true, false, Option, none, some, List, [], ◌∷◌, ◌++◌, ◌==◌, nat_eq, if◌then◌else◌,
}
use xolis.Base.Int.{ℤ, pos}
use xolis.Base.Result.{Result, ok, err, ◌>>=◌}
use xolis.Text.{Text, codes}

pub data Failure : Type 0 where
  aws_command_error runtime_error value_error key_error : Failure
  -- not of the program: the model's fuel for the pages was too small
  out_of_fuel : Failure

-- One block device of an image, with the snapshot it is made from, if it names one.
pub record Image : Type 0 where
  pub image_id : Option Text
  pub name : Option Text
  pub snapshot_ids : List (Option Text)

-- An entry of a listing that the report names by one field, which may be missing.
abbrev pub Listing : Type 0
Listing = List (Option Text)

pub record Instance : Type 0 where
  pub instance_id : Option Text
  pub state : Option Text
  pub instance_type : Option Text

pub record Volume : Type 0 where
  pub volume_id : Option Text
  pub state : Option Text
  pub size : Option ℕ
  pub volume_type : Option Text

pub record MultipartUpload : Type 0 where
  pub key : Text
  pub upload_id : Text

-- What a reply says, as far as the report reads it, with the defaults for what is missing. Sizes are
-- numbers of bytes.
pub record Response : Type 0 where
  pub block_size : ℤ
  pub blocks : ℕ
  pub next_token : Option Text
  pub images : List Image
  pub repositories : List (Option Text)
  pub image_sizes : List ℕ
  pub buckets : List (Option Text)
  pub version_sizes : List ℕ
  pub uploads : List MultipartUpload
  pub part_sizes : List ℕ
  pub account : Option Text
  pub arn : Option Text
  pub clusters : List Text
  pub reservations : List (List Instance)
  pub volumes : List Volume
  -- the field of each other listing, such as `NatGatewayId` of `NatGateways`
  pub listing : Listing

-- `{}`
abbrev pub no_response : Response
no_response = record {
  block_size = pos 0;
  blocks = 0;
  next_token = none;
  images = [];
  repositories = [];
  image_sizes = [];
  buckets = [];
  version_sizes = [];
  uploads = [];
  part_sizes = [];
  account = none;
  arn = none;
  clusters = [];
  reservations = [];
  volumes = [];
  listing = [];
}

-- What a command prints.
pub data Printed : Type 0 where
  blank not_json not_an_object : Printed
  object : Response → Printed

pub record CompletedProcess : Type 0 where
  pub returncode : ℕ
  pub stdout : Printed

abbrev pub Request : Type 0
Request = List Text

pub record AwsCli : Type 0 where
  pub profile : Text
  pub region : Text

-- An option with its value, unless the value is empty.
abbrev pub option : Text → Text → Request
option name [] = []
option name (c ∷ s) = name ∷ (c ∷ s) ∷ []

unfoldable pub command : AwsCli → Request → Request
command aws arguments =
    codes "aws"
    ∷ (option (codes "--profile") aws.profile
        ++ (option (codes "--region") aws.region ++ arguments))

-- What lies outside the program: what each command line gives. The calls only read.
abbrev pub World : Type 0
World = Request → CompletedProcess

abbrev pub parsed : Printed → Result Failure Response
parsed blank = ok no_response
parsed not_json = err value_error
parsed not_an_object = err aws_command_error
parsed (object response) = ok response

abbrev pub checked : CompletedProcess → Result Failure Response
checked result = if result.returncode == 0 then parsed result.stdout else err aws_command_error

unfoldable pub run_json : World → AwsCli → Request → Result Failure Response
unfolding command
run_json world aws arguments =
    checked (world (command aws (arguments ++ (codes "--output" ∷ codes "json" ∷ []))))

unfoldable pub sum : List ℕ → ℕ
sum [] = 0
sum (n ∷ ns) = n + sum ns
